-- ===== src/Base/Elementwise.antt =====
-- The constructors of src/base/add.h, src/base/mul.h and src/base/swiglu.h, which store the same
-- metadata of two inputs and an output.
use infini_ops.Prelude.{ℕ, Bool, not, List, Outcome, ok, ◌>>=◌, ◌>>◌, assert}
use infini_ops.DataType.{DataType}
use infini_ops.Tensor.{Tensor, ndim, numel, is_contiguous, has_broadcast_dim}
use infini_ops.Base.Checks.{has_dtype}

pub record Elementwise : Type 0 where
  pub dims : ℕ
  pub output_size : ℕ
  pub input_type : DataType
  pub other_type : DataType
  pub out_type : DataType
  pub input_shape : List ℕ
  pub other_shape : List ℕ
  pub out_shape : List ℕ
  pub input_strides : List ℕ
  pub other_strides : List ℕ
  pub out_strides : List ℕ
  pub is_input_contiguous : Bool
  pub is_other_contiguous : Bool
  pub is_out_contiguous : Bool

-- The initialisers, the same in the three classes.
unfoldable pub elementwise_fields : Tensor → Tensor → Tensor → Outcome Elementwise
elementwise_fields input other out = do
  is_input_contiguous ← is_contiguous input
  is_other_contiguous ← is_contiguous other
  is_out_contiguous ← is_contiguous out
  ok (record {
    dims = ndim out;
    output_size = numel out;
    input_type = input.dtype;
    other_type = other.dtype;
    out_type = out.dtype;
    input_shape = input.shape;
    other_shape = other.shape;
    out_shape = out.shape;
    input_strides = input.strides;
    other_strides = other.strides;
    out_strides = out.strides;
    is_input_contiguous = is_input_contiguous;
    is_other_contiguous = is_other_contiguous;
    is_out_contiguous = is_out_contiguous;
  })

unfoldable pub add : Tensor → Tensor → Tensor → Outcome Elementwise
unfolding elementwise_fields
add input other out = do
  op ← elementwise_fields input other out
  broadcast ← has_broadcast_dim out
  assert (not broadcast)
  has_dtype input other.dtype
  has_dtype other out.dtype
  ok op

unfoldable pub mul : Tensor → Tensor → Tensor → Outcome Elementwise
unfolding elementwise_fields
mul input other out = do
  op ← elementwise_fields input other out
  broadcast ← has_broadcast_dim out
  assert (not broadcast)
  has_dtype input other.dtype
  has_dtype other out.dtype
  ok op

unfoldable pub swiglu : Tensor → Tensor → Tensor → Outcome Elementwise
unfolding elementwise_fields
swiglu input gate out = do
  op ← elementwise_fields input gate out
  has_dtype input gate.dtype
  has_dtype gate out.dtype
  ok op
