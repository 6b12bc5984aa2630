-- ===== src/Common/GenericUtils/Places.antt =====
-- Where `IndexToOffset` puts an element, for any strides.
use native.Mathlib.Nat.{div-div-eq-div-mul, mul_comm}
use infini_ops.Prelude.{
  ℕ, zero, suc, ◌+◌, ◌*◌, ◌/◌, ◌%◌, ◌^◌, ◌<◌, ◌≤◌, ◌≡◌, refl, ap, sym, ◌∙◌, arith, List, [], ◌∷◌,
  get_elem?, length, drop, some, ok, add64, mul64,
}
use infini_ops.Prelude.Products.{product, product-drop, get_elem?_below}
use infini_ops.Common.GenericUtils.{offset_loop, index_to_offset}
use infini_ops.Common.GenericUtils.Offsets.{offset_loop-suc, drop_all}
use infini_ops.Tensor.Strides.{drop-get}

-- The sum of the strides times the coordinates of element `i`: its number divided by the number of
-- elements behind a dimension, within the size of the dimension.
abbrev pub strided_sum : (shape strides : List ℕ) → ℕ → ℕ
strided_sum (s ∷ shape) (d ∷ strides) i = i / product shape % s * d + strided_sum shape strides i
strided_sum _ _ i = 0

-- The offset as a word.
abbrev pub place_of : (shape strides : List ℕ) → ℕ → ℕ
place_of shape strides i = strided_sum shape strides i % 2 ^ 64

some_product : (s p i : ℕ) → i < s * p → 0 < s
some_product zero p i h = absurd (omega arith)
some_product (suc s) p i h = omega arith

some_rest : (s p i : ℕ) → i < s * p → 0 < p
some_rest s zero i h = absurd (omega (arith, mul_comm s 0))
some_rest s (suc p) i h = omega arith

size_positive :
    (shape : List ℕ) (k s i : ℕ) → get_elem? shape k ≡ some s → i < product shape → 0 < s
size_positive [] k s i h lt = cc
size_positive (x ∷ shape) zero s i h lt = ground (arith, some_product x (product shape) i lt)
size_positive (x ∷ shape) (suc k) s i h lt =
    size_positive shape k s 0 h (some_rest x (product shape) i lt)

next_sum : (a b c : ℕ) → add64 (a % 2 ^ 64) (mul64 b c) ≡ (b * c + a) % 2 ^ 64
next_sum a b c = let p : ℕ = b * c in omega arith

module _ (shape strides : List ℕ) (same : length strides ≡ length shape) (i : ℕ)
    (inside : i < product shape) where
  offset_loop-place_of :
      (k : ℕ)
      → k ≤ length shape
      → offset_loop shape strides k
          (i / product (drop k shape))
          (place_of (drop k shape) (drop k strides) i)
        ≡ ok (place_of shape strides i)
  offset_loop-place_of zero h = unfold offset_loop in refl
  offset_loop-place_of (suc k) h =
      let (s, hs) = get_elem?_below shape k h in
      let (d, hd) = get_elem?_below strides k (omega arith) in
      let p = product (drop (suc k) shape) in
      let rest = strided_sum (drop (suc k) shape) (drop (suc k) strides) i in
      let quotient : i / p / s ≡ i / product (drop k shape) =
        div-div-eq-div-mul i p s
        ∙ ap (λ m. i / m) (mul_comm p s ∙ sym (product-drop shape k s hs)) in
      let sums : strided_sum (drop k shape) (drop k strides) i ≡ i / p % s * d + rest =
        λ t. strided_sum (drop-get shape k s hs t) (drop-get strides k d hd t) i in
      offset_loop-suc shape strides k (i / p) (rest % 2 ^ 64) s d hs hd
        (size_positive shape k s i hs inside)
      ∙ (λ t. offset_loop shape strides k (quotient t) (next_sum rest (i / p % s) d t))
      ∙ ap (λ m. offset_loop shape strides k (i / product (drop k shape)) (m % 2 ^ 64)) (sym sums)
      ∙ offset_loop-place_of k (omega arith)

  -- `IndexToOffset` gives the sum of the strides times the coordinates.
  pub index_to_offset-place_of :
      index_to_offset i (length shape) shape strides ≡ ok (place_of shape strides i)
  unfolding index_to_offset
  index_to_offset-place_of =
      let all = drop_all shape in
      let all' : drop (length shape) strides ≡ [] =
        ap (λ n. drop n strides) (sym same) ∙ drop_all strides in
      let whole : i / product (drop (length shape) shape) ≡ i =
        ap (λ xs. i / product xs) all ∙ omega arith in
      let nothing : place_of (drop (length shape) shape) (drop (length shape) strides) i ≡ 0 =
        λ t. place_of (all t) (all' t) i in
      (λ t. offset_loop shape strides (length shape) (sym whole t) (sym nothing t))
      ∙ offset_loop-place_of (length shape) (omega arith)
