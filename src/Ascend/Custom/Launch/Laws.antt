-- ===== src/Ascend/Custom/Launch/Laws.antt =====
-- Which kernel a launch runs.
use infini_ops.Prelude.{
  ℕ, ◌-◌, ◌*◌, ◌/◌, add64, sub64, ◌%◌, ◌^◌, ◌<◌, ◌≤◌, ◌≡◌, refl, ap, sym, subst, ◌∙◌, arith, Bool,
  true, false, ◌||◌, ◌==◌, ltb, List, [], ◌∷◌, Option, none, some, length, get_elem?, Outcome,
  Fault, ok, fail, ok-inj, fail-ok, bind_ok, clash, assert, lt→ltb, ==_iff, ◌>>=◌, mul64, access,
  if◌then◌else◌,
}
use infini_ops.Prelude.Products.{product}
use infini_ops.DataType.{
  DataType, data_type_code, size_of, int8, int16, int32, int64, uint8, uint16, uint32, uint64,
  float16, bfloat16, float32, float64,
}
use infini_ops.DataType.Dispatch.{data_type_at}
use infini_ops.Base.Checks.{divide}
use infini_ops.Base.Checks.Laws.{assert-true}
use infini_ops.Ascend.Custom.Tiling.{tile_rows, align_row}
use infini_ops.Ascend.Custom.Tiling.Partition.{tile_rows-partition}
use infini_ops.Ascend.Custom.Kernels.{kernel_element}
use infini_ops.Ascend.Custom.Launch.{
  NormLaunch, CustomNorm, torch_check, is_half_or_float, check_weight, launch_rows, torch_rms_norm,
  has_kernel, custom_norm, custom_launch, launch_args, signed_leb, max_dim_length,
}

-- The kernels that the switch knows are those of the accepted types.
kernel_element-code :
    (dtype : DataType) → has_kernel dtype ≡ true → kernel_element (data_type_code dtype) ≡ dtype
unfolding kernel_element data_type_at
kernel_element-code int8 h = cc
kernel_element-code int16 h = cc
kernel_element-code int32 h = cc
kernel_element-code int64 h = cc
kernel_element-code uint8 h = cc
kernel_element-code uint16 h = cc
kernel_element-code uint32 h = cc
kernel_element-code uint64 h = cc
kernel_element-code float16 h = refl
kernel_element-code bfloat16 h = refl
kernel_element-code float32 h = refl
kernel_element-code float64 h = cc

-- The size of an element is the code of another type.
kernel_element-size :
    (dtype : DataType) (bytes : ℕ)
    → is_half_or_float dtype ≡ true
    → size_of dtype ≡ ok bytes
    → kernel_element bytes ≡ float32
unfolding kernel_element data_type_at size_of
kernel_element-size int8 bytes h e = cc
kernel_element-size int16 bytes h e = cc
kernel_element-size int32 bytes h e = cc
kernel_element-size int64 bytes h e = cc
kernel_element-size uint8 bytes h e = cc
kernel_element-size uint16 bytes h e = cc
kernel_element-size uint32 bytes h e = cc
kernel_element-size uint64 bytes h e = cc
kernel_element-size float16 bytes h e = subst (λ n. kernel_element n ≡ float32) (ok-inj e) refl
kernel_element-size bfloat16 bytes h e = cc
kernel_element-size float32 bytes h e = subst (λ n. kernel_element n ≡ float32) (ok-inj e) refl
kernel_element-size float64 bytes h e = cc

-- An assertion that passed.
checked :
    (b : Bool) {B : Type 0} (k : Outcome B) {r : B}
    → (torch_check b >>= λ _. k) ≡ ok r
    → (b ≡ true) × (k ≡ ok r)
checked true k h = (refl, h)
checked false k h = absurd (fail-ok h)

not_none :
    (b : Bool) (k : Outcome (Option NormLaunch)) {l : NormLaunch}
    → (if b then ok none else k) ≡ ok (some l)
    → k ≡ ok (some l)
not_none true k h = absurd (clash (ok-inj h))
not_none false k h = h

abbrev code_of : Option NormLaunch → ℕ
code_of none = 0
code_of (some l) = l.dtype_code

module _ (core_num ub_size : ℕ) (coefficient_of : ℕ → ℕ) (sizes : List ℕ) (dtype : DataType) where
  launch_rows-float :
      (l : NormLaunch)
      → is_half_or_float dtype ≡ true
      → launch_rows core_num ub_size coefficient_of sizes dtype ≡ ok (some l)
      → kernel_element l.dtype_code ≡ float32
  unfolding launch_rows
  launch_rows-float l accepted h =
      let (dim, e1, h1) = bind_ok (access (get_elem? sizes (length sizes - 1))) _ h in
      let (rows, e2, h2) = bind_ok (divide (product sizes % 2 ^ 64) dim) _ h1 in
      let (bytes, e3, h3) = bind_ok (size_of dtype) _ (not_none ((rows == 0) || (dim == 0)) _ h2) in
      let (align, e4, h4) = bind_ok (align_row dim bytes) _ h3 in
      let (longest, e5, h5) = bind_ok (max_dim_length ub_size (coefficient_of bytes)) _ h4 in
      let (_, h6) = checked (signed_leb align longest) _ h5 in
      let (tiling, e7, h7) = bind_ok (tile_rows rows core_num) _ h6 in
      let code : bytes ≡ l.dtype_code = ap code_of (ok-inj h7) in
      subst (λ n. kernel_element n ≡ float32) code (kernel_element-size dtype bytes accepted e3)

-- A launch by the function for PyTorch runs the kernel for `float`, whichever of its two types the
-- input has.
pub torch_rms_norm-float :
    (core_num ub_size : ℕ) (sizes : List ℕ) (dtype : DataType) (weight_sizes : List ℕ)
    (l : NormLaunch)
    → torch_rms_norm core_num ub_size sizes dtype weight_sizes ≡ ok (some l)
    → kernel_element l.dtype_code ≡ float32
unfolding torch_rms_norm
torch_rms_norm-float core_num ub_size sizes dtype weight_sizes l h =
    let (_, h1) = checked (ltb 0 (length sizes)) _ h in
    let (accepted, h2) = checked (is_half_or_float dtype) _ h1 in
    let (_, _, h3) = bind_ok (check_weight sizes weight_sizes) _ h2 in
    launch_rows-float core_num ub_size (λ _. 20) sizes dtype l accepted h3

-- An input of rows of no element is accepted, but the number of its rows is divided by 0 before the
-- test that returns an empty tensor for it.
pub torch_rms_norm-empty_rows :
    (core_num ub_size : ℕ) (sizes : List ℕ) (dtype : DataType)
    → is_half_or_float dtype ≡ true
    → 0 < length sizes
    → get_elem? sizes (length sizes - 1) ≡ some 0
    → torch_rms_norm core_num ub_size sizes dtype (0 ∷ []) ≡ fail Fault.divided_by_zero
unfolding torch_rms_norm check_weight launch_rows divide
torch_rms_norm-empty_rows core_num ub_size sizes dtype accepted dims last =
    rw (lt→ltb 0 (length sizes) dims, accepted, last) refl

blocks_of_two :
    (dim bytes align : ℕ) → bytes ≡ 2 → align_row dim bytes ≡ ok align → (align * bytes) % 32 ≡ 0
unfolding align_row
blocks_of_two dim bytes align two h =
    let aligned = ok-inj (rw two at h) in
    let part : ℕ = sub64 (add64 dim 16) 1 / 16 in
    let whole : mul64 part 16 ≡ align = aligned in rw two (omega (arith, whole))

blocks_of_four :
    (dim bytes align : ℕ) → bytes ≡ 4 → align_row dim bytes ≡ ok align → (align * bytes) % 32 ≡ 0
unfolding align_row
blocks_of_four dim bytes align four h =
    let aligned = ok-inj (rw four at h) in
    let part : ℕ = sub64 (add64 dim 8) 1 / 8 in
    let whole : mul64 part 8 ≡ align = aligned in rw four (omega (arith, whole))

-- Whole blocks of 32 bytes.
align_row-blocks :
    (dtype : DataType) (dim bytes align : ℕ)
    → has_kernel dtype ≡ true
    → size_of dtype ≡ ok bytes
    → align_row dim bytes ≡ ok align
    → (align * bytes) % 32 ≡ 0
unfolding align_row size_of
align_row-blocks float16 dim bytes align known sized h =
    blocks_of_two dim bytes align (ok-inj (sym sized)) h
align_row-blocks bfloat16 dim bytes align known sized h =
    blocks_of_two dim bytes align (ok-inj (sym sized)) h
align_row-blocks float32 dim bytes align known sized h =
    blocks_of_four dim bytes align (ok-inj (sym sized)) h
align_row-blocks _ dim bytes align known sized h = cc

-- What the constructor accepts is launched on at most 40 cores with the kernel of its own type, and
-- with rows of a whole number of 32-byte blocks, if there is a row and there are fewer than 2 ^ 63;
-- without a row, the launch divides by 0.
pub custom_launch-kernel :
    (dtype : DataType) (dim batch_size nhead : ℕ) (op : CustomNorm)
    → custom_norm dtype dim batch_size nhead ≡ ok op
    → (0 < mul64 batch_size nhead
        → mul64 batch_size nhead < 2 ^ 63
        → (l : NormLaunch) × (custom_launch op ≡ ok l)
          × (l.tiling.used_cores ≤ 40)
          × (kernel_element l.dtype_code ≡ dtype)
          × (l.dim_length ≡ dim)
          × (l.dim_length_align ≡ dim)
          × ((bytes : ℕ) × (size_of dtype ≡ ok bytes) × ((l.dim_length * bytes) % 32 ≡ 0)))
      × (mul64 batch_size nhead ≡ 0 → custom_launch op ≡ fail Fault.divided_by_zero)
unfolding custom_norm custom_launch
custom_launch-kernel dtype dim batch_size nhead op h =
    let (_, known, h1) = bind_ok (assert (has_kernel dtype)) _ h in
    let (bytes, e2, h2) = bind_ok (size_of dtype) _ h1 in
    let (align, e3, h3) = bind_ok (align_row dim bytes) _ h2 in
    let (_, aligned, h4) = bind_ok (assert (dim == align)) _ h3 in
    let whole = (==_iff dim align).0 (assert-true (dim == align) aligned) in
    let made = ok-inj h4 in
    let rows : mul64 batch_size nhead ≡ op.total_rows =
      ap (λ (o : CustomNorm). o.total_rows) made in
    (
      λ some_rows small.
          let total = mul64 batch_size nhead in
          let (t, tiled, cores, _, _) =
            tile_rows-partition total 40 some_rows (omega arith) small in
          let tiled' : tile_rows op.total_rows 40 ≡ ok t =
            ap (λ n. tile_rows n 40) (sym rows) ∙ tiled in
          (
            launch_args op t,
            rw tiled' refl,
            cores,
            ap (λ (o : CustomNorm). kernel_element (data_type_code o.dtype)) (sym made)
                ∙ kernel_element-code dtype (assert-true (has_kernel dtype) known),
            ap (λ (o : CustomNorm). o.dim) (sym made),
            ap (λ (o : CustomNorm). o.dim_length_align) (sym made) ∙ sym whole,
            (
              bytes,
              e2,
              ap (λ n. (n * bytes) % 32) (ap (λ (o : CustomNorm). o.dim) (sym made) ∙ whole)
                  ∙ align_row-blocks dtype dim bytes align (assert-true (has_kernel dtype) known) e2
                      e3,
            ),
          ),
      λ empty. unfold tile_rows in rw (sym rows ∙ empty) refl,
    )
