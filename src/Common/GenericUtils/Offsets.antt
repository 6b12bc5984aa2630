-- ===== src/Common/GenericUtils/Offsets.antt =====
-- `IndexToOffset` on a row-major layout, where the CPU kernels skip it, and `CeilDiv`.
use native.Mathlib.Nat.{div-lt_iff_lt-mul, div-add-mod, div-add-mod', le_refl, mod-lt}
use infini_ops.Prelude.{
  ℕ, zero, suc, ◌+◌, ◌-◌, ◌*◌, ◌/◌, ◌%◌, ◌^◌, ◌≤◌, ◌<◌, List, [], ◌∷◌, get_elem?, ok, fail, Fault,
  add64, mul64, arith, ◌≡◌, refl, some, length, take, drop, ap, ◌∙◌,
}
use infini_ops.Prelude.Products.{
  product, suffixes, get_elem?-suffixes, product-drop, product-take, get_elem?_below,
}
use infini_ops.Common.GenericUtils.{offset_loop, index_to_offset, ceil_div}

pub offset_loop-suc :
    (shape strides : List ℕ) (i flat res s d : ℕ)
    → get_elem? shape i ≡ some s
    → get_elem? strides i ≡ some d
    → 0 < s
    → offset_loop shape strides (suc i) flat res
      ≡ offset_loop shape strides i (flat / s) (add64 res (mul64 (flat % s) d))
unfolding offset_loop
offset_loop-suc shape strides i flat res s d hs hd pos = ground arith

split_index : (flat s p : ℕ) → flat % s * p + flat / s * (s * p) ≡ flat * p
split_index flat s p = omega (arith, ap (λ (t : ℕ). t * p) (div-add-mod flat s))

positive_factor : (x a s : ℕ) → x < a * s → 0 < s
positive_factor x a zero h = absurd (omega arith)
positive_factor x a (suc s) h = omega arith

no_index : (flat p res : ℕ) → flat < 1 → res ≡ res + flat * p
no_index zero p res h = omega arith
no_index (suc flat) p res h = absurd (omega arith)

row_major :
    (shape : List ℕ) (i flat res : ℕ)
    → i ≤ length shape
    → flat < product (take i shape)
    → res + flat * product (drop i shape) < 2 ^ 64
    → offset_loop shape (suffixes shape) i flat res ≡ ok (res + flat * product (drop i shape))
row_major shape zero flat res h lt fits =
    unfold offset_loop in ap ok (no_index flat (product shape) res lt)
row_major shape (suc i) flat res h lt fits =
    let (s, hs) = get_elem?_below shape i h in
    let p = product (drop (suc i) shape) in
    let below : flat < product (take i shape) * s = rw (← product-take shape i s hs) lt in
    let pos : 0 < s = positive_factor flat (product (take i shape)) s below in
    let split = split_index flat s p in
    let whole : product (drop i shape) ≡ s * p = product-drop shape i s hs in
    let next : add64 res (mul64 (flat % s) p) ≡ res + flat % s * p = omega (arith, split) in
    let total : res + flat % s * p + flat / s * product (drop i shape) ≡ res + flat * p =
      rw whole (omega (arith, split)) in
    offset_loop-suc shape (suffixes shape) i flat res s p hs (get_elem?-suffixes shape i h) pos
    ∙ ap (offset_loop shape (suffixes shape) i (flat / s)) next
    ∙ row_major shape i (flat / s) (res + flat % s * p) (omega arith)
        ((div-lt_iff_lt-mul pos).1 below) (rw total fits)
    ∙ ap ok total

take_all : (xs : List ℕ) → take (length xs) xs ≡ xs
take_all [] = refl
take_all (x ∷ xs) = ap (◌∷◌ x) (take_all xs)

pub drop_all : (xs : List ℕ) → drop (length xs) xs ≡ []
drop_all [] = refl
drop_all (x ∷ xs) = drop_all xs

-- In a row-major layout of at most 2 ^ 64 elements the offset of an element is its index.
pub index_to_offset-suffixes :
    (shape : List ℕ) (flat_index : ℕ)
    → flat_index < product shape
    → product shape ≤ 2 ^ 64
    → index_to_offset flat_index (length shape) shape (suffixes shape) ≡ ok flat_index
unfolding index_to_offset
index_to_offset-suffixes shape flat_index lt fits =
    row_major shape (length shape) flat_index 0 (le_refl _) (rw (take_all shape) lt)
      (rw (drop_all shape) (omega arith))
    ∙ ap ok (rw (drop_all shape) (omega arith))

below_suc : (n y r : ℕ) → 0 < y → n < suc r * y → n / y ≤ r
below_suc n y r pos h = omega (arith, (div-lt_iff_lt-mul {k = y} {x = n} {y = suc r} pos).1 h)

-- `CeilDiv` is the least number of blocks of `y` that hold `x`, if `x + y` does not wrap; without a
-- block size it divides by zero.
pub ceil_div_least :
    (x y : ℕ)
    → (y ≡ 0 → ceil_div x y ≡ fail Fault.divided_by_zero)
      × (0 < y
          → x + y < 2 ^ 64
          → (q : ℕ) × (ceil_div x y ≡ ok q) × (x ≤ q * y) × ((r : ℕ) → x ≤ r * y → q ≤ r))
unfolding ceil_div
ceil_div_least x y = (
  λ z. ground arith,
  λ pos fits. (
    (x + y - 1) / y,
    ground arith,
    omega (arith, div-add-mod' (x + y - 1) y, mod-lt (x + y - 1) pos),
    λ r h. below_suc (x + y - 1) y r pos (omega arith),
  ),
)
