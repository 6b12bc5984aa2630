-- ===== src/Prelude/Equality.antt =====
-- C++'s `==` on the types whose values the program compares.
use text.Mathlib.Text.{◌==◌ as str_eq}
use text.Mathlib.TextEquality.{eq_iff}
use Prim.Native.String.{String}
use infini_ops.Prelude.{
  ℕ, ◌≡◌, refl, ◌↔◌, Bool, true, false, ◌&&◌, List, [], ◌∷◌, ap, subst, arith, ◌==◌, ==_iff,
}

pub record Eq {ℓ} (T : Type ℓ) : Type ℓ where
  pub beq : T → T → Bool
  pub beq_iff : (x y : T) → (beq x y ≡ true) ↔ (x ≡ y)

abbrev pub same {ℓ} : {A : Type ℓ} ⦃e : Eq A⦄ → A → A → Bool
same ⦃e⦄ = e.beq

instance abbrev pub nat_eq : Eq ℕ
nat_eq = record { beq = ◌==◌; beq_iff = ==_iff }

instance abbrev pub string_eq : Eq String
string_eq = record { beq = str_eq; beq_iff = eq_iff }

module _ {ℓ} {A : Type ℓ} ⦃e : Eq A⦄ where
  -- `std::vector::operator==`.
  abbrev pub list_same : List A → List A → Bool
  list_same [] [] = true
  list_same [] (y ∷ ys) = false
  list_same (x ∷ xs) [] = false
  list_same (x ∷ xs) (y ∷ ys) = e.beq x y && list_same xs ys

  pub list_same_sound : (xs ys : List A) → list_same xs ys ≡ true → xs ≡ ys
  list_same_sound [] [] h = refl
  list_same_sound [] (y ∷ ys) h = cc
  list_same_sound (x ∷ xs) [] h = cc
  list_same_sound (x ∷ xs) (y ∷ ys) h = ground (arith, (e.beq_iff x y).0, list_same_sound xs ys)

  pub list_same_refl : (xs : List A) → list_same xs xs ≡ true
  list_same_refl [] = refl
  list_same_refl (x ∷ xs) = rw ((e.beq_iff x x).1 refl) (list_same_refl xs)

  pub list_same_iff : (xs ys : List A) → (list_same xs ys ≡ true) ↔ (xs ≡ ys)
  list_same_iff xs ys =
      (list_same_sound xs ys, λ p. subst (λ zs. list_same xs zs ≡ true) p (list_same_refl xs))

instance abbrev pub list_eq {ℓ} : {A : Type ℓ} ⦃e : Eq A⦄ → Eq (List A)
list_eq = record { beq = list_same; beq_iff = list_same_iff }

-- Equality of an enumeration by its underlying numbers.
abbrev pub by_code {ℓ} : {A : Type ℓ} (code : A → ℕ) → ((a b : A) → code a ≡ code b → a ≡ b) → Eq A
by_code code injective = record {
  beq = λ a b. code a == code b;
  beq_iff = λ a b. (λ h. injective a b ((==_iff _ _).0 h), λ p. (==_iff _ _).1 (ap code p));
}
