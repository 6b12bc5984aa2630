-- ===== src/Tensor/Laws.antt =====
-- Indices, subscripts and transposition.
use native.Mathlib.Nat.{div-add-mod'}
use infini_ops.Prelude.{
  ℕ, zero, suc, ◌+◌, ◌-◌, ◌*◌, ◌%◌, ◌^◌, ◌<◌, ◌≤◌, ◌≡◌, refl, ap, sym, subst, ◌∙◌, List, [], ◌∷◌,
  arith, length, get_elem?, drop, none, Outcome, ok, fail, Fault, access, minus, ◌>>=◌, mul64,
  add64,
}
use infini_ops.DataType.{DataType, size_of}
use infini_ops.Device.{Device}
use infini_ops.Tensor.{Tensor, size, get_effective_index, transpose, subscript, strided}
use infini_ops.Tensor.Contiguous.{IsView, size-eq}

get_elem?_past : (xs : List ℕ) (i : ℕ) → length xs ≤ i → get_elem? xs i ≡ none
get_elem?_past [] i h = refl
get_elem?_past (x ∷ xs) zero h = absurd (omega arith)
get_elem?_past (x ∷ xs) (suc i) h = get_elem?_past xs i (omega arith)

effective_minus :
    (k n : ℕ) → 0 < k → k < 2 ^ 63 → get_effective_index (minus k) n ≡ (2 ^ 64 - k + n) % 2 ^ 64
unfolding get_effective_index
effective_minus k n pos h = ground arith

-- A negative index counts from the end: `size(-k)` is `size(ndim - k)` for the dimensions there are,
-- and reads out of range for larger `k`.
pub size-minus :
    (t : Tensor) (k : ℕ)
    → IsView t
    → 0 < k
    → k < 2 ^ 63
    → (k ≤ length t.shape → size t (minus k) ≡ size t (length t.shape - k))
      × (length t.shape < k → size t (minus k) ≡ fail Fault.out_of_range)
size-minus t k v pos h =
    let few = v.indexable in
    let start : size t (minus k)
        ≡ access (get_elem? t.shape ((2 ^ 64 - k + length t.shape) % 2 ^ 64)) =
      unfold size in
      ap (λ i. access (get_elem? t.shape i)) (effective_minus k (length t.shape) pos h) in
    (
      λ inside.
          start
          ∙ ap (λ i. access (get_elem? t.shape i)) {y = length t.shape - k} (omega arith)
          ∙ sym (size-eq t (length t.shape - k) (omega arith)),
      λ outside. start ∙ ap access (get_elem?_past t.shape _ (omega arith)),
    )

two_of : (xs : List ℕ) → length xs ≡ 2 → (a b : ℕ) × (xs ≡ a ∷ b ∷ [])
two_of [] h = absurd (omega arith)
two_of (a ∷ []) h = absurd (omega arith)
two_of (a ∷ b ∷ []) h = (a, b, refl)
two_of (a ∷ b ∷ c ∷ xs) h = absurd (omega arith)

-- Transposing a matrix twice gives the same view.
pub transpose-transpose :
    (t : Tensor) → length t.shape ≡ 2 → length t.strides ≡ 2 → (transpose t >>= transpose) ≡ ok t
unfolding transpose
transpose-transpose t hs hd =
    let (a, b, shapes) = two_of t.shape hs in
    let (c, d, steps) = two_of t.strides hd in
    let view : t ≡ strided t.data_ (a ∷ b ∷ []) t.dtype t.device (c ∷ d ∷ []) =
      λ i. strided t.data_ (shapes i) t.dtype t.device (steps i) in
    subst (λ u. (transpose u >>= transpose) ≡ ok u) (sym view) refl

-- `t[i][j]...`.
abbrev pub subscripts : Tensor → List ℕ → Outcome Tensor
subscripts t [] = ok t
subscripts t (i ∷ indices) = subscript t i >>= λ u. subscripts u indices

-- The sum of the indices times their strides.
abbrev pub dot : List ℕ → List ℕ → ℕ
dot (i ∷ indices) (d ∷ strides) = i * d + dot indices strides
dot _ _ = 0

mul-mod : (a b : ℕ) → (a % 2 ^ 64 * b) % 2 ^ 64 ≡ (a * b) % 2 ^ 64
mul-mod a b = omega (arith, ap (λ (t : ℕ). t * b) (div-add-mod' a (2 ^ 64)))

step_address : (a i d b : ℕ) → add64 (a % 2 ^ 64) (mul64 (mul64 i d) b) ≡ (a + b * (i * d)) % 2 ^ 64
step_address a i d b = omega (arith, mul-mod (i * d) b)

effective_self : (i n : ℕ) → i < 2 ^ 63 → get_effective_index i n ≡ i
unfolding get_effective_index
effective_self i n h = ground arith

subscript-cons {ℓ} :
    {A : Type ℓ} (x i s d b : ℕ) (ss ds : List ℕ) (dtype : DataType) (device : Device)
    → size_of dtype ≡ ok b
    → i < 2 ^ 63
    → (k : Tensor → Outcome A)
    → (subscript (strided x (s ∷ ss) dtype device (d ∷ ds)) i >>= k)
      ≡ k (strided (add64 x (mul64 (mul64 i d) b)) ss dtype device ds)
unfolding subscript
subscript-cons x i s d b ss ds dtype device hb h k = rw (hb, effective_self i s h)

abbrev pub Nonnegative : List ℕ → Type 0
Nonnegative [] = Unit {0}
Nonnegative (i ∷ indices) = (i < 2 ^ 63) × Nonnegative indices

subscripts_at :
    (indices ss ds : List ℕ) (a b : ℕ) (dtype : DataType) (device : Device)
    → size_of dtype ≡ ok b
    → Nonnegative indices
    → length indices ≤ length ss
    → length ds ≡ length ss
    → subscripts (strided (a % 2 ^ 64) ss dtype device ds) indices
      ≡ ok (
          strided
            ((a + b * dot indices ds) % 2 ^ 64)
            (drop (length indices) ss)
            dtype
            device
            (drop (length indices) ds))
subscripts_at [] ss ds a b dtype device hb nn h same =
    ap (λ x. ok (strided x ss dtype device ds)) {x = a % 2 ^ 64} (omega arith)
subscripts_at (i ∷ indices) [] ds a b dtype device hb nn h same = absurd (omega arith)
subscripts_at (i ∷ indices) (s ∷ ss) [] a b dtype device hb nn h same = absurd (omega arith)
subscripts_at (i ∷ indices) (s ∷ ss) (d ∷ ds) a b dtype device hb nn h same =
    let total : (a + b * (i * d) + b * dot indices ds) % 2 ^ 64
        ≡ (a + b * (i * d + dot indices ds)) % 2 ^ 64 =
      omega arith in
    subscript-cons (a % 2 ^ 64) i s d b ss ds dtype device hb nn.0 (λ u. subscripts u indices)
    ∙ ap (λ x. subscripts (strided x ss dtype device ds) indices) (step_address a i d b)
    ∙ subscripts_at indices ss ds (a + b * (i * d)) b dtype device hb nn.1 (omega arith)
        (omega arith)
    ∙ ap (λ x. ok (strided x (drop (length indices) ss) dtype device (drop (length indices) ds)))
        total

-- Subscripts by nonnegative indices, at most one for each dimension, give the view of the remaining
-- dimensions at the address of the element: the data plus the element size times the sum of the
-- indices times their strides, in the arithmetic of words.
pub subscripts_address :
    (t : Tensor) (indices : List ℕ) (bytes : ℕ)
    → t.data_ < 2 ^ 64
    → size_of t.dtype ≡ ok bytes
    → Nonnegative indices
    → length indices ≤ length t.shape
    → length t.strides ≡ length t.shape
    → subscripts t indices
      ≡ ok (
          strided
            ((t.data_ + bytes * dot indices t.strides) % 2 ^ 64)
            (drop (length indices) t.shape)
            t.dtype
            t.device
            (drop (length indices) t.strides))
subscripts_address t indices bytes small hb nn few same =
    let start : t.data_ % 2 ^ 64 ≡ t.data_ = omega arith in
    ap (λ x. subscripts (strided x t.shape t.dtype t.device t.strides) indices) (sym start)
    ∙ subscripts_at indices t.shape t.strides t.data_ bytes t.dtype t.device hb nn few same
