-- ===== src/Ascend/Custom/Kernels.antt =====
-- src/native/ascend/custom/rms_norm/op_kernel/rms_norm.cpp and
-- src/native/ascend/custom/add_rms_norm/op_kernel/add_rms_norm.cpp. A vector instruction applies an
-- operation to each element of a buffer; queues and copies between memories are left out.
pub mod Laws
use infini_ops.Prelude.{ℕ, ◌+◌, ◌%◌, ◌^◌, List}
use infini_ops.DataType.{
  DataType, int8, int16, int32, int64, uint8, uint16, uint32, uint64, float16, bfloat16, float32,
  float64,
}
use infini_ops.DataType.Dispatch.{data_type_at}
use infini_ops.Ascend.Custom.Tiling.{Tiling}
use infini_ops.Ascend.Custom.Rows.{process}

-- The vector unit of a core, for elements of type `T` and `float`: `Cast` to `float` and, rounding to
-- the nearest, back; the arithmetic; and `ReduceSum` over the first elements of a buffer.
pub record VectorUnit (T F : Type 0) : Type 0 where
  pub cast_none : T → F
  pub cast_rint : F → T
  pub plus : F → F → F
  pub times : F → F → F
  pub over : F → F → F
  pub sqrt : F → F
  pub reduce_sum : ℕ → (ℕ → F) → F
  pub of_int : ℕ → F
  pub one : F

-- The arguments of a launch.
pub record NormArgs (F : Type 0) : Type 0 where
  pub dim_length : ℕ
  pub dim_length_align : ℕ
  pub tiling : Tiling
  pub eps : F

-- The `switch` of both entry points: the element type of the class that runs.
unfoldable pub kernel_element : (dtype_code : ℕ) → DataType
unfolding data_type_at
kernel_element dtype_code = elim (data_type_at dtype_code) [
  | float16 ↦ float16
  | bfloat16 ↦ bfloat16
  | _ ↦ float32
]

module _ {T F : Type 0} (v : VectorUnit T F) (args : NormArgs F) where
  -- `static_cast<int32_t>`.
  abbrev pub dim_len : ℕ
  dim_len = args.dim_length % 2 ^ 32

  abbrev pub dim_len_align : ℕ
  dim_len_align = args.dim_length_align % 2 ^ 32

  -- `scale`, from the squares of a row.
  unfoldable pub scale_of : (ℕ → F) → F
  scale_of squares =
      let sum_val = v.reduce_sum dim_len_align squares in
      let mean_val = v.plus (v.over sum_val (v.of_int dim_len)) args.eps in
      v.over v.one (v.sqrt mean_val)

  -- A row times its scale and the weight.
  unfoldable pub scaled_row : (row weight : ℕ → F) → ℕ → F
  unfolding scale_of
  scaled_row row weight k =
      let scale = scale_of (λ k. v.times (row k) (row k)) in
      v.times (v.times (row k) scale) (weight k)

  -- `KernelRmsNorm<T>::Compute` on the row that starts at `base`, for 16-bit elements.
  unfoldable pub rms_norm_narrow : (input : ℕ → T) (weight : ℕ → F) → ℕ → ℕ → T
  unfolding scaled_row
  rms_norm_narrow input weight base k =
      v.cast_rint (scaled_row (λ k. v.cast_none (input (base + k))) weight k)

  -- The same for `float`.
  unfoldable pub rms_norm_wide : (input weight : ℕ → F) → ℕ → ℕ → F
  unfolding scaled_row
  rms_norm_wide input weight base k = scaled_row (λ k. input (base + k)) weight k

  -- `x_out` of `KernelAddRmsNorm<T>::Compute`, before it is rounded.
  abbrev pub sum_narrow : (input residual : ℕ → T) → ℕ → ℕ → F
  sum_narrow input residual base k =
      v.plus (v.cast_none (input (base + k))) (v.cast_none (residual (base + k)))

  unfoldable pub add_norm_narrow : (input residual : ℕ → T) (weight : ℕ → F) → ℕ → ℕ → T
  unfolding scaled_row
  add_norm_narrow input residual weight base k =
      v.cast_rint (scaled_row (sum_narrow input residual base) weight k)

  unfoldable pub add_norm_residual : (input residual : ℕ → T) → ℕ → ℕ → T
  add_norm_residual input residual base k = v.cast_rint (sum_narrow input residual base k)

  unfoldable pub add_norm_wide : (input residual weight : ℕ → F) → ℕ → ℕ → F
  unfolding scaled_row
  add_norm_wide input residual weight base k =
      scaled_row (λ k. v.plus (input (base + k)) (residual (base + k))) weight k

  unfoldable pub add_norm_residual_wide : (input residual : ℕ → F) → ℕ → ℕ → F
  add_norm_residual_wide input residual base k = v.plus (input (base + k)) (residual (base + k))

  -- All cores of `KernelRmsNorm<half>` or `<bfloat16_t>`, with their rounds in the given order.
  unfoldable pub run_rms_norm_kernel :
      (input : ℕ → T) (weight : ℕ → F) → List (ℕ × ℕ) → (ℕ → T) → ℕ → T
  run_rms_norm_kernel input weight order out =
      process args.tiling args.dim_length_align 2 (rms_norm_narrow input weight) order out

  -- Those of `KernelAddRmsNorm`, with both outputs.
  unfoldable pub run_add_rms_norm_kernel :
      (input residual : ℕ → T) (weight : ℕ → F)
      → List (ℕ × ℕ)
      → (out residual_out : ℕ → T) → (ℕ → T) × (ℕ → T)
  run_add_rms_norm_kernel input residual weight order out residual_out = (
    process args.tiling args.dim_length_align 2 (add_norm_narrow input residual weight) order out,
    process args.tiling args.dim_length_align 2 (add_norm_residual input residual) order
        residual_out,
  )

-- Those of the kernels for `float`.
module _ {F : Type 0} (v : VectorUnit F F) (args : NormArgs F) where
  unfoldable pub run_rms_norm_kernel_wide : (input weight : ℕ → F) → List (ℕ × ℕ) → (ℕ → F) → ℕ → F
  run_rms_norm_kernel_wide input weight order out =
      process args.tiling args.dim_length_align 4 (rms_norm_wide v args input weight) order out

  unfoldable pub run_add_rms_norm_kernel_wide :
      (input residual weight : ℕ → F)
      → List (ℕ × ℕ)
      → (out residual_out : ℕ → F) → (ℕ → F) × (ℕ → F)
  run_add_rms_norm_kernel_wide input residual weight order out residual_out = (
    process args.tiling args.dim_length_align 4 (add_norm_wide v args input residual weight) order
        out,
    process args.tiling args.dim_length_align 4 (add_norm_residual_wide v args input residual) order
        residual_out,
  )
