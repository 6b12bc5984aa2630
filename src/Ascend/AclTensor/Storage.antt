-- ===== src/Ascend/AclTensor/Storage.antt =====
-- How much memory a descriptor says that its view reaches.
use infini_ops.Prelude.{
  subst, ◌⊎◌, ◌&&◌, not, negative, positive, if◌then◌else◌, add64, ℕ, zero, suc, ◌+◌, ◌-◌, ◌*◌, ◌%◌,
  ◌^◌, ◌<◌, ◌≤◌, ◌≡◌, refl, ap, ◌∙◌, ◌==◌, ltb, false, List, [], ◌∷◌, length, ok, ok-inj, arith,
  sub64, map, inl, inr,
}
use infini_ops.Prelude.Products.{product, suffixes}
use infini_ops.DataType.{DataType}
use infini_ops.Device.{Device}
use infini_ops.Tensor.{Tensor, strided, make_tensor, default_strides}
use infini_ops.Tensor.Laws.{dot}
use infini_ops.Tensor.Strides.{length-suffixes, mul64-wrap, wrap, default_strides-suffixes}
use infini_ops.Ascend.AclDtype.{AclDtype, to_acl_dtype}
use infini_ops.Ascend.AclTensor.{
  grow_storage, storage_from, storage_elems, meta_of, contiguous, meta_of_shape,
}

-- One less than the number of elements from the first to the last of a view that has elements.
abbrev pub reach : List ℕ → List ℕ → ℕ
reach (s ∷ shape) (d ∷ strides) = (s - 1) * d + reach shape strides
reach _ _ = 0

-- One index below its size for each dimension.
abbrev pub IsIndex : List ℕ → List ℕ → Type 0
IsIndex [] [] = Unit {0}
IsIndex (i ∷ indices) (s ∷ shape) = (i < s) × IsIndex indices shape
IsIndex _ _ = ⊥

abbrev pub IsNonempty : List ℕ → Type 0
IsNonempty [] = Unit {0}
IsNonempty (s ∷ shape) = (0 < s) × IsNonempty shape

abbrev pub IsWords : List ℕ → Type 0
IsWords [] = Unit {0}
IsWords (d ∷ ds) = (d < 2 ^ 64) × IsWords ds

-- A product of two words is zero with one of them, and else it is at least each.
Factors : ℕ → ℕ → ℕ → Type 0
Factors n d p = ((n ≡ 0) × (p ≡ 0)) ⊎ ((d ≡ 0) × (p ≡ 0)) ⊎ ((0 < n) × (0 < d) × (d ≤ p) × (n ≤ p))

factors : (n d : ℕ) → Factors n d (n * d)
unfolding Factors
factors zero d = inl (refl, omega arith)
factors (suc n) zero = inr (inl (refl, omega arith))
factors (suc n) (suc d) = inr (inr (omega arith, omega arith, grind arith, grind arith))

sub64_one : (s : ℕ) → 0 < s → s < 2 ^ 64 → sub64 s 1 ≡ s - 1
sub64_one s h w = omega arith

grow_by :
    (acc s d p : ℕ)
    → 0 < acc
    → 0 < s
    → Factors (s - 1) d p
    → acc + p < 2 ^ 63
    → (if positive d && (not (negative s) && ltb 1 s) then add64 acc (p % 2 ^ 64) else acc)
      ≡ acc + p
unfolding Factors
grow_by acc s d p start pos (inl (a, b)) h = ground arith
grow_by acc s d p start pos (inr (inl (a, b))) h = ground arith
grow_by acc s d p start pos (inr (inr (a, b, c, e))) h = ground arith

grow_storage-add :
    (acc s d : ℕ)
    → 0 < acc
    → 0 < s
    → s < 2 ^ 64
    → acc + (s - 1) * d < 2 ^ 63
    → grow_storage acc s d ≡ acc + (s - 1) * d
unfolding grow_storage
grow_storage-add acc s d start hs ws h =
    rw (sub64_one s hs ws) (grow_by acc s d ((s - 1) * d) start hs (factors (s - 1) d) h)

storage_from-reach :
    (acc : ℕ) (shape strides : List ℕ)
    → length strides ≡ length shape
    → 0 < acc
    → IsNonempty shape
    → IsWords shape
    → acc + reach shape strides < 2 ^ 63
    → storage_from acc shape strides ≡ ok (acc + reach shape strides)
unfolding storage_from
storage_from-reach acc [] strides same start full words h = ap ok (omega arith)
storage_from-reach acc (s ∷ shape) [] same start full words h = absurd (omega arith)
storage_from-reach acc (s ∷ shape) (d ∷ strides) same start full words h =
    let grown = grow_storage-add acc s d start full.0 words.0 (omega arith) in
    let some_left : (s == 0) ≡ false = ground arith in
    rw (some_left, grown)
      (storage_from-reach (acc + (s - 1) * d) shape strides (omega arith) (omega arith) full.1
          words.1 (omega arith)
        ∙ ap ok (omega arith))

storage_elems-reach :
    (shape strides : List ℕ)
    → length strides ≡ length shape
    → IsNonempty shape
    → IsWords shape
    → 1 + reach shape strides < 2 ^ 63
    → storage_elems shape strides ≡ ok (1 + reach shape strides)
unfolding storage_elems
storage_elems-reach shape strides same full words h =
    storage_from-reach 1 shape strides same (omega arith) full words h

mul_le_mul : (a b d : ℕ) → a ≤ b → a * d ≤ b * d
mul_le_mul a b d h = grind arith

minus_one : (s p : ℕ) → 0 < s → (s - 1) * p + p ≡ s * p
minus_one zero p h = absurd (omega arith)
minus_one (suc s) p h = grind arith

-- No index reaches past the storage, and the last one reaches its end.
dot-le-reach :
    (indices shape strides : List ℕ)
    → IsIndex indices shape
    → dot indices strides ≤ reach shape strides
dot-le-reach [] [] strides h = omega arith
dot-le-reach [] (s ∷ shape) strides h = absurd h
dot-le-reach (i ∷ indices) [] strides h = absurd h
dot-le-reach (i ∷ indices) (s ∷ shape) [] h = omega arith
dot-le-reach (i ∷ indices) (s ∷ shape) (d ∷ strides) h =
    let this : i * d ≤ (s - 1) * d = mul_le_mul i (s - 1) d (omega (arith, h.0)) in
    omega (arith, dot-le-reach indices shape strides h.1)

-- The index of the last element.
abbrev pub last_index : List ℕ → List ℕ
last_index = map (λ s. s - 1)

last_index-IsIndex : (shape : List ℕ) → IsNonempty shape → IsIndex (last_index shape) shape
last_index-IsIndex [] h = tt
last_index-IsIndex (s ∷ shape) h = (omega (arith, h.0), last_index-IsIndex shape h.1)

dot-last_index : (shape strides : List ℕ) → dot (last_index shape) strides ≡ reach shape strides
dot-last_index [] strides = refl
dot-last_index (s ∷ shape) [] = refl
dot-last_index (s ∷ shape) (d ∷ strides) = ap (λ r. (s - 1) * d + r) (dot-last_index shape strides)

-- For a view that has elements and as many strides as sizes, and whose last element lies fewer than
-- 2 ^ 63 - 1 elements after its first, the strides taken without a sign, the storage of the
-- descriptor is exactly what the view reaches: every index of the view lies inside, and one index at
-- its end.
pub storage_elems_exact :
    (shape strides : List ℕ)
    → length strides ≡ length shape
    → IsNonempty shape
    → IsWords shape
    → 1 + reach shape strides < 2 ^ 63
    → (n : ℕ) × (storage_elems shape strides ≡ ok n)
      × ((indices : List ℕ) → IsIndex indices shape → dot indices strides < n)
      × ((indices : List ℕ) × (IsIndex indices shape × (dot indices strides + 1 ≡ n)))
storage_elems_exact shape strides same full words h = (
  1 + reach shape strides,
  storage_elems-reach shape strides same full words h,
  λ indices inside. omega (arith, dot-le-reach indices shape strides inside),
  (last_index shape, (last_index-IsIndex shape full, omega (arith, dot-last_index shape strides))),
)

pub contiguous-suffixes :
    (shape : List ℕ) → contiguous shape ≡ (wrap (suffixes shape), product shape % 2 ^ 64)
unfolding contiguous
contiguous-suffixes [] = λ i. ([], 1)
contiguous-suffixes (s ∷ shape) =
    rw (contiguous-suffixes shape)
      (λ i. (product shape % 2 ^ 64 ∷ wrap (suffixes shape), mul64-wrap (product shape) s i))

-- A row-major view reaches its product.
reach-suffixes :
    (shape : List ℕ) → IsNonempty shape → 1 + reach shape (suffixes shape) ≡ product shape
reach-suffixes [] h = refl
reach-suffixes (s ∷ shape) h =
    let rest = reach-suffixes shape h.1 in
    let whole : (s - 1) * product shape + product shape ≡ s * product shape =
      minus_one s (product shape) h.0 in
    omega arith

product_pos : (shape : List ℕ) → IsNonempty shape → 0 < product shape
product_pos [] h = omega arith
product_pos (s ∷ shape) h = let rest = product_pos shape h.1 in grind (arith, h.0)

pub wrap_small :
    (shape : List ℕ)
    → IsNonempty shape
    → product shape < 2 ^ 64
    → wrap (suffixes shape) ≡ suffixes shape
wrap_small [] h small = refl
wrap_small (s ∷ shape) h small =
    let below : product shape ≤ s * product shape = grind (arith, h.0) in
    let same : product shape % 2 ^ 64 ≡ product shape = omega arith in
    λ i. same i ∷ wrap_small shape h.1 (omega arith) i

-- A shape whose product is a word has sizes that are words.
product-IsWords : (shape : List ℕ) → IsNonempty shape → product shape < 2 ^ 64 → IsWords shape
product-IsWords [] h small = tt
product-IsWords (s ∷ shape) h small =
    let pos = product_pos shape h.1 in
    let by_size : s ≤ s * product shape = grind arith in
    let by_rest : product shape ≤ s * product shape = grind (arith, h.0) in
    (omega arith, product-IsWords shape h.1 (omega arith))

-- For a tensor that is made without strides, whose sizes are positive and multiply to less than
-- 2 ^ 63, the constructor from a tensor keeps what the constructor from its shape and type keeps.
pub meta_of-meta_of_shape :
    (address : ℕ) (shape : List ℕ) (dtype : DataType) (device : Device) (t : Tensor)
    (acl : AclDtype)
    → IsNonempty shape
    → product shape < 2 ^ 63
    → to_acl_dtype dtype ≡ ok acl
    → make_tensor address shape dtype device ≡ ok t
    → meta_of t false ≡ ok (meta_of_shape shape acl)
unfolding meta_of meta_of_shape make_tensor
meta_of-meta_of_shape address shape dtype device t acl full small known made =
    let strides = suffixes shape in
    let exact = reach-suffixes shape full in
    let stored : storage_elems shape strides ≡ ok (product shape) =
      storage_elems-reach shape strides (length-suffixes shape) full
        (product-IsWords shape full (omega arith)) (omega arith)
      ∙ ap ok exact in
    let kept = wrap_small shape full (omega arith) in
    let total : product shape % 2 ^ 64 ≡ product shape = omega arith in
    let strides_made : default_strides shape ≡ ok strides =
      default_strides-suffixes shape ∙ ap ok kept in
    let is_t : strided address shape dtype device strides ≡ t = ok-inj (rw strides_made at made) in
    let layout : contiguous shape ≡ (strides, product shape) =
      contiguous-suffixes shape ∙ (λ i. (kept i, total i)) in
    subst (λ u. meta_of u false ≡ ok (meta_of_shape shape acl)) is_t
      (rw (stored, known, layout) refl)
