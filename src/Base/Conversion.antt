-- ===== src/Base/Conversion.antt =====
-- The constructors of src/base/cast.h and src/base/silu_and_mul.h.
use infini_ops.Prelude.{ℕ, Bool, ◌==◌, List, Outcome, ok, ◌>>=◌, ◌>>◌, assert}
use infini_ops.DataType.{DataType, data_type_eq}
use infini_ops.Tensor.{Tensor, ndim, numel, is_contiguous}
use infini_ops.Base.Checks.{from_end, has_dtype}

pub record Cast : Type 0 where
  pub dims : ℕ
  pub output_size : ℕ
  pub input_dtype : DataType
  pub out_dtype : DataType
  pub input_shape : List ℕ
  pub out_shape : List ℕ
  pub input_strides : List ℕ
  pub out_strides : List ℕ
  pub is_input_contiguous : Bool
  pub is_out_contiguous : Bool

unfoldable pub cast : Tensor → Tensor → Outcome Cast
cast input out = do
  is_input_contiguous ← is_contiguous input
  is_out_contiguous ← is_contiguous out
  assert (numel input == numel out)
  ok (record {
    dims = ndim out;
    output_size = numel out;
    input_dtype = input.dtype;
    out_dtype = out.dtype;
    input_shape = input.shape;
    out_shape = out.shape;
    input_strides = input.strides;
    out_strides = out.strides;
    is_input_contiguous = is_input_contiguous;
    is_out_contiguous = is_out_contiguous;
  })

pub record SiluAndMul : Type 0 where
  pub input_shape : List ℕ
  pub input_strides : List ℕ
  pub out_shape : List ℕ
  pub out_strides : List ℕ
  pub input_dtype : DataType
  pub out_dtype : DataType
  pub dim : ℕ
  pub dims : ℕ
  pub is_input_contiguous : Bool
  pub is_out_contiguous : Bool

unfoldable pub silu_and_mul : Tensor → ℕ → Tensor → Outcome SiluAndMul
silu_and_mul input dim out = do
  is_input_contiguous ← is_contiguous input
  is_out_contiguous ← is_contiguous out
  has_dtype input out.dtype
  ok (record {
    input_shape = input.shape;
    input_strides = input.strides;
    out_shape = out.shape;
    out_strides = out.strides;
    input_dtype = input.dtype;
    out_dtype = out.dtype;
    dim = dim;
    dims = ndim input;
    is_input_contiguous = is_input_contiguous;
    is_out_contiguous = is_out_contiguous;
  })

-- The constructor without a dimension, for which it is -1.
unfoldable pub silu_and_mul_default : Tensor → Tensor → Outcome SiluAndMul
unfolding silu_and_mul
silu_and_mul_default input out = silu_and_mul input (from_end 1) out
