-- ===== src/Base/Checks/Laws.antt =====
-- What a constructor's checks say once they have passed.
use infini_ops.Prelude.{
  ℕ, zero, suc, ◌<◌, ◌≡◌, refl, ap, ◌∙◌, Bool, true, false, List, [], ◌∷◌, ◌==◌, ==_iff, length,
  get_elem?, some, Outcome, Fault, ok, fail, ◌⊎◌, inl, inr, ◌>>◌, assert, access, bind_ok, ok-inj,
  fail-ok, arith,
}
use infini_ops.Prelude.Equality.{list_same_sound, nat_eq}
use infini_ops.DataType.{data_type_eq}
use infini_ops.Tensor.{Tensor, ndim, size, get_effective_index}
use infini_ops.Base.Checks.{has_ndim, same_shape, has_size}

pub assert-true : (b : Bool) {u : Unit {0}} → assert b ≡ ok u → b ≡ true
assert-true true h = refl
assert-true false h = absurd (fail-ok h)

-- Two steps that end well.
pub then_ok {ℓ} :
    {B : Type ℓ} (m : Outcome (Unit {0})) {k : Outcome B} {x : B}
    → (m >> k) ≡ ok x
    → (m ≡ ok tt) × (k ≡ ok x)
then_ok (ok u) h = (refl, h)
then_ok (fail e) h = absurd (fail-ok h)

pub has_ndim-length : (t : Tensor) (n : ℕ) → has_ndim t n ≡ ok tt → length t.shape ≡ n
unfolding ndim
has_ndim-length t n h = (==_iff (length t.shape) n).0 (assert-true (length t.shape == n) h)

pub same_shape-shape : (a b : Tensor) → same_shape a b ≡ ok tt → a.shape ≡ b.shape
same_shape-shape a b h = list_same_sound a.shape b.shape (assert-true _ h)

pub has_size-size : (t : Tensor) (i n : ℕ) → has_size t i n ≡ ok tt → size t i ≡ ok n
has_size-size t i n h =
    let (s, found, test) = bind_ok (size t i) _ h in
    found ∙ ap ok ((==_iff s n).0 (assert-true (s == n) test))

access-ok : {A : Type 0} {m n : A} → access (some m) ≡ ok n → m ≡ n
access-ok h = ok-inj h

shape_one : (xs : List ℕ) (a : ℕ) → length xs ≡ 1 → access (get_elem? xs 0) ≡ ok a → xs ≡ a ∷ []
shape_one [] a n h = absurd (omega arith)
shape_one (x ∷ []) a n h = ap (λ (y : ℕ). y ∷ []) (ok-inj h)
shape_one (x ∷ y ∷ ys) a n h = absurd (omega arith)

shape_three :
    (xs : List ℕ) (a b c : ℕ)
    → length xs ≡ 3
    → access (get_elem? xs 0) ≡ ok a
    → access (get_elem? xs 1) ≡ ok b
    → access (get_elem? xs 2) ≡ ok c
    → xs ≡ a ∷ b ∷ c ∷ []
shape_three [] a b c n h0 h1 h2 = absurd (omega arith)
shape_three (x ∷ []) a b c n h0 h1 h2 = absurd (omega arith)
shape_three (x ∷ y ∷ []) a b c n h0 h1 h2 = absurd (omega arith)
shape_three (x ∷ y ∷ z ∷ []) a b c n h0 h1 h2 = λ i. ok-inj h0 i ∷ ok-inj h1 i ∷ ok-inj h2 i ∷ []
shape_three (x ∷ y ∷ z ∷ w ∷ ws) a b c n h0 h1 h2 = absurd (omega arith)

shape_four :
    (xs : List ℕ) (b c d : ℕ)
    → length xs ≡ 4
    → access (get_elem? xs 1) ≡ ok b
    → access (get_elem? xs 2) ≡ ok c
    → access (get_elem? xs 3) ≡ ok d
    → (a : ℕ) × (xs ≡ a ∷ b ∷ c ∷ d ∷ [])
shape_four [] b c d n h1 h2 h3 = absurd (omega arith)
shape_four (x ∷ []) b c d n h1 h2 h3 = absurd (omega arith)
shape_four (x ∷ y ∷ []) b c d n h1 h2 h3 = absurd (omega arith)
shape_four (x ∷ y ∷ z ∷ []) b c d n h1 h2 h3 = absurd (omega arith)
shape_four (x ∷ y ∷ z ∷ w ∷ []) b c d n h1 h2 h3 =
    (x, λ i. x ∷ ok-inj h1 i ∷ ok-inj h2 i ∷ ok-inj h3 i ∷ [])
shape_four (x ∷ y ∷ z ∷ w ∷ v ∷ vs) b c d n h1 h2 h3 = absurd (omega arith)

shape_two :
    (xs : List ℕ) (a : ℕ)
    → length xs ≡ 2
    → access (get_elem? xs 0) ≡ ok a
    → (b : ℕ) × (xs ≡ a ∷ b ∷ [])
shape_two [] a n h = absurd (omega arith)
shape_two (x ∷ []) a n h = absurd (omega arith)
shape_two (x ∷ y ∷ []) a n h = (y, λ i. ok-inj h i ∷ y ∷ [])
shape_two (x ∷ y ∷ z ∷ zs) a n h = absurd (omega arith)

module _ (t : Tensor) where
  -- The first four dimensions have indices that are not negative.
  pub size_near : (i n : ℕ) → i < 4 → size t i ≡ ok n → access (get_elem? t.shape i) ≡ ok n
  unfolding size get_effective_index
  size_near zero n lt h = h
  size_near (suc zero) n lt h = h
  size_near (suc (suc zero)) n lt h = h
  size_near (suc (suc (suc zero))) n lt h = h
  size_near (suc (suc (suc (suc i)))) n lt h = absurd (omega arith)

  pub shape-one : (a : ℕ) → has_ndim t 1 ≡ ok tt → size t 0 ≡ ok a → t.shape ≡ a ∷ []
  shape-one a n h = shape_one t.shape a (has_ndim-length t 1 n) (size_near 0 a (omega arith) h)

  pub shape-two :
      (a : ℕ) → has_ndim t 2 ≡ ok tt → size t 0 ≡ ok a → (b : ℕ) × (t.shape ≡ a ∷ b ∷ [])
  shape-two a n h = shape_two t.shape a (has_ndim-length t 2 n) (size_near 0 a (omega arith) h)

  pub shape-three :
      (a b c : ℕ)
      → has_ndim t 3 ≡ ok tt
      → size t 0 ≡ ok a
      → size t 1 ≡ ok b
      → size t 2 ≡ ok c
      → t.shape ≡ a ∷ b ∷ c ∷ []
  shape-three a b c n h0 h1 h2 =
      shape_three t.shape a b c (has_ndim-length t 3 n) (size_near 0 a (omega arith) h0)
        (size_near 1 b (omega arith) h1) (size_near 2 c (omega arith) h2)

  pub shape-four :
      (b c d : ℕ)
      → has_ndim t 4 ≡ ok tt
      → size t 1 ≡ ok b
      → size t 2 ≡ ok c
      → size t 3 ≡ ok d
      → (a : ℕ) × (t.shape ≡ a ∷ b ∷ c ∷ d ∷ [])
  shape-four b c d n h1 h2 h3 =
      shape_four t.shape b c d (has_ndim-length t 4 n) (size_near 1 b (omega arith) h1)
        (size_near 2 c (omega arith) h2) (size_near 3 d (omega arith) h3)

-- A check passes or fails.
pub check_cases : (m : Outcome (Unit {0})) → (m ≡ ok tt) ⊎ ((e : Fault) × (m ≡ fail e))
check_cases (ok u) = inl refl
check_cases (fail e) = inr (e, refl)
