-- ===== src/Tensor/Numel.antt =====
-- The number of elements.
use native.Mathlib.Nat.{div-add-mod', mul_assoc}
use infini_ops.Prelude.{ℕ, ◌*◌, ◌%◌, ◌^◌, ◌<◌, ◌≡◌, ap, ◌∙◌, List, [], ◌∷◌, arith, mul64}
use infini_ops.Prelude.Products.{product}
use infini_ops.Tensor.{Tensor, product_from, numel}

pub mul-mod : (a b : ℕ) → (a % 2 ^ 64 * b) % 2 ^ 64 ≡ (a * b) % 2 ^ 64
mul-mod a b = omega (arith, ap (λ (t : ℕ). t * b) (div-add-mod' a (2 ^ 64)))

product_from-product :
    (acc : ℕ) (shape : List ℕ)
    → acc < 2 ^ 64
    → product_from acc shape ≡ (acc * product shape) % 2 ^ 64
unfolding product_from
product_from-product acc [] h = omega arith
product_from-product acc (s ∷ shape) h =
    product_from-product (mul64 acc s) shape (omega arith)
    ∙ mul-mod (acc * s) (product shape)
    ∙ ap (λ n. n % 2 ^ 64) (mul_assoc acc s (product shape))

-- The product of the sizes, in the arithmetic of words.
pub numel-product : (t : Tensor) → numel t ≡ product t.shape % 2 ^ 64
unfolding numel
numel-product t = product_from-product 1 t.shape (omega arith) ∙ omega arith
