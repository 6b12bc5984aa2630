-- ===== src/Ascend/Custom/Launch.antt =====
-- The hosts of the kernels under src/native/ascend/custom: the functions for PyTorch in
-- rms_norm/op_host/rms_norm.cpp and add_rms_norm/op_host/add_rms_norm.cpp there, of which the checks and
-- the numbers are modelled, not the tensors that they pad; and the operators in
-- src/native/ascend/ops/rms_norm/kernel_custom.h and
-- src/native/ascend/ops/add_rms_norm/kernel_custom.h, without the cast of the weight.
pub mod Laws
use infini_ops.Prelude.{
  ℕ, ◌-◌, ◌%◌, ◌^◌, ◌==◌, ltb, leb, Bool, true, false, ◌&&◌, ◌||◌, not, if◌then◌else◌, Option, none,
  some, List, [], ◌∷◌, length, get_elem?, Outcome, ok, fail, Fault, ◌>>=◌, ◌>>◌, assert, access,
  add64, sub64, mul64,
}
use infini_ops.Prelude.Equality.{list_same, nat_eq}
use infini_ops.Prelude.Products.{product}
use infini_ops.DataType.{DataType, data_type_code, size_of, float16, bfloat16, float32}
use infini_ops.Base.Checks.{divide}
use infini_ops.Ascend.Custom.Tiling.{Tiling, tile_rows, align_row}

pub record NormLaunch : Type 0 where
  pub block_dim : ℕ
  pub total_rows : ℕ
  pub dim_length : ℕ
  pub dim_length_align : ℕ
  pub tiling : Tiling
  pub dtype_code : ℕ

-- `TORCH_CHECK` throws.
abbrev pub torch_check : Bool → Outcome (Unit {0})
torch_check true = ok tt
torch_check false = fail Fault.thrown

-- `a <= b` on `int64_t`.
abbrev pub signed_leb : ℕ → ℕ → Bool
signed_leb a b = leb (add64 a (2 ^ 63)) (add64 b (2 ^ 63))

-- The scalar types that both functions accept.
abbrev pub is_half_or_float : DataType → Bool
is_half_or_float float16 = true
is_half_or_float float32 = true
is_half_or_float _ = false

-- The longest row that fits, from the size of the unified buffer and the bytes of an element.
unfoldable pub max_dim_length : (ub_size_limit buffer_coefficient : ℕ) → Outcome ℕ
max_dim_length ub_size_limit buffer_coefficient = do
  fitting ← divide (sub64 ub_size_limit 1024) buffer_coefficient
  blocks ← divide fitting 8
  ok (mul64 blocks 8)

-- What follows the checks of the arguments; `none` is the return of an empty tensor. A launch passes
-- the size of an element as its type.
unfoldable pub launch_rows :
    (core_num ub_size : ℕ) (coefficient_of : ℕ → ℕ) (sizes : List ℕ) (dtype : DataType)
    → Outcome (Option NormLaunch)
unfolding max_dim_length
launch_rows core_num ub_size coefficient_of sizes dtype = do
  dim_length ← access (get_elem? sizes (length sizes - 1))
  total_rows ← divide (product sizes % 2 ^ 64) dim_length
  if (total_rows == 0) || (dim_length == 0) then ok none else do
    dtype_size ← size_of dtype
    dim_length_align ← align_row dim_length dtype_size
    longest ← max_dim_length ub_size (coefficient_of dtype_size)
    torch_check (signed_leb dim_length_align longest)
    tiling ← tile_rows total_rows core_num
    ok (
        some (record {
          block_dim = tiling.used_cores % 2 ^ 32;
          total_rows = total_rows;
          dim_length = dim_length;
          dim_length_align = dim_length_align;
          tiling = tiling;
          dtype_code = dtype_size;
        }))

-- `weight` is 1-dimensional and as long as a row.
unfoldable pub check_weight : (sizes weight_sizes : List ℕ) → Outcome (Unit {0})
check_weight sizes weight_sizes = do
  torch_check (length weight_sizes == 1)
  weight_size ← access (get_elem? weight_sizes 0)
  dim_length ← access (get_elem? sizes (length sizes - 1))
  torch_check (weight_size == dim_length)

-- `ascend::detail::RmsNorm`, from the device's number of cores and size of the unified buffer.
unfoldable pub torch_rms_norm :
    (core_num ub_size : ℕ) (sizes : List ℕ) (dtype : DataType) (weight_sizes : List ℕ)
    → Outcome (Option NormLaunch)
unfolding check_weight launch_rows
torch_rms_norm core_num ub_size sizes dtype weight_sizes = do
  torch_check (ltb 0 (length sizes))
  torch_check (is_half_or_float dtype)
  check_weight sizes weight_sizes
  launch_rows core_num ub_size (λ _. 20) sizes dtype

-- `ascend::detail::AddRmsNorm`; `same_types` says that both inputs have the type `dtype`.
unfoldable pub torch_add_rms_norm :
    (core_num ub_size : ℕ) (sizes1 sizes2 : List ℕ) (dtype : DataType) (same_types : Bool)
    (weight_sizes : List ℕ)
    → Outcome (Option NormLaunch)
unfolding check_weight launch_rows
torch_add_rms_norm core_num ub_size sizes1 sizes2 dtype same_types weight_sizes = do
  torch_check (ltb 0 (length sizes1))
  torch_check (list_same sizes1 sizes2)
  torch_check same_types
  torch_check (is_half_or_float dtype)
  check_weight sizes1 weight_sizes
  launch_rows core_num ub_size (λ dtype_size. if dtype_size == 2 then 28 else 36) sizes1 dtype

-- The fields that both operators add to those of their base classes.
pub record CustomNorm : Type 0 where
  pub dtype : DataType
  pub dim : ℕ
  pub dim_length_align : ℕ
  pub total_rows : ℕ

abbrev pub has_kernel : DataType → Bool
has_kernel float16 = true
has_kernel bfloat16 = true
has_kernel float32 = true
has_kernel _ = false

-- The constructors of both operators, from the sizes that the base class found.
unfoldable pub custom_norm : DataType → (dim batch_size nhead : ℕ) → Outcome CustomNorm
custom_norm dtype dim batch_size nhead = do
  assert (has_kernel dtype)
  dtype_size ← size_of dtype
  dim_length_align ← align_row dim dtype_size
  assert (dim == dim_length_align)
  ok (record {
    dtype = dtype;
    dim = dim;
    dim_length_align = dim_length_align;
    total_rows = mul64 batch_size nhead;
  })

-- The arguments of their launch.
abbrev pub launch_args : CustomNorm → Tiling → NormLaunch
launch_args op tiling = record {
  block_dim = tiling.used_cores % 2 ^ 32;
  total_rows = op.total_rows;
  dim_length = op.dim;
  dim_length_align = op.dim_length_align;
  tiling = tiling;
  dtype_code = data_type_code op.dtype;
}

-- The launch of both operators, on `kMaxBlockDim` cores at most.
unfoldable pub custom_launch : CustomNorm → Outcome NormLaunch
custom_launch op = do tiling ← tile_rows op.total_rows 40; ok (launch_args op tiling)
