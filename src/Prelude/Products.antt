-- ===== src/Prelude/Products.antt =====
-- Products of a list's numbers, and of its ends.
use native.Mathlib.Nat.{mul_assoc}
use infini_ops.Prelude.{
  ℕ, zero, suc, ◌*◌, ◌≡◌, ◌<◌, ap, sym, ◌∙◌, List, [], ◌∷◌, arith, length, get_elem?, take, drop,
  some, refl,
}

abbrev pub product : List ℕ → ℕ
product [] = 1
product (s ∷ shape) = s * product shape

-- The strides of a row-major layout: for each dimension the product of those after it.
abbrev pub suffixes : List ℕ → List ℕ
suffixes [] = []
suffixes (s ∷ shape) = product shape ∷ suffixes shape

pub get_elem?-suffixes :
    (shape : List ℕ) (i : ℕ)
    → i < length shape
    → get_elem? (suffixes shape) i ≡ some (product (drop (suc i) shape))
get_elem?-suffixes [] i h = absurd (omega arith)
get_elem?-suffixes (s ∷ shape) zero h = refl
get_elem?-suffixes (s ∷ shape) (suc i) h = get_elem?-suffixes shape i (omega arith)

pub product-drop :
    (shape : List ℕ) (i s : ℕ)
    → get_elem? shape i ≡ some s
    → product (drop i shape) ≡ s * product (drop (suc i) shape)
product-drop [] i s h = cc
product-drop (x ∷ shape) zero s h = ground arith
product-drop (x ∷ shape) (suc i) s h = product-drop shape i s h

pub product-take :
    (shape : List ℕ) (i s : ℕ)
    → get_elem? shape i ≡ some s
    → product (take (suc i) shape) ≡ product (take i shape) * s
product-take [] i s h = cc
product-take (x ∷ shape) zero s h = ground arith
product-take (x ∷ shape) (suc i) s h =
    ap (λ y. x * y) (product-take shape i s h) ∙ sym (mul_assoc x (product (take i shape)) s)

pub get_elem?_below {ℓ} :
    {A : Type ℓ} (xs : List A) (i : ℕ) → i < length xs → (x : A) × (get_elem? xs i ≡ some x)
get_elem?_below [] i h = absurd (omega arith)
get_elem?_below (x ∷ xs) zero h = (x, refl)
get_elem?_below (x ∷ xs) (suc i) h = get_elem?_below xs i (omega arith)
