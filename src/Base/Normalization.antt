-- ===== src/Base/Normalization.antt =====
-- The constructors of src/base/rms_norm.h and src/base/add_rms_norm.h. `F` is `float`.
use infini_ops.Prelude.{ℕ, ◌==◌, if◌then◌else◌, List, Outcome, ok, ◌>>=◌, ◌>>◌}
use infini_ops.DataType.{data_type_eq}
use infini_ops.Tensor.{Tensor, ndim, size}
use infini_ops.Base.Checks.{from_end, has_dtype}

pub record RmsNorm (F : Type 0) : Type 0 where
  pub input_shape : List ℕ
  pub out_shape : List ℕ
  pub input_strides : List ℕ
  pub out_strides : List ℕ
  pub eps : F
  pub dim : ℕ
  pub dims : ℕ
  pub batch_size : ℕ
  pub nhead : ℕ

-- The batch size and the number of heads of a tensor of two or three dimensions.
unfoldable pub batch_and_heads : Tensor → Outcome (ℕ × ℕ)
batch_and_heads t = do
  batch_size ← (if ndim t == 2 then size t (from_end 2) else size t (from_end 3))
  nhead ← (if ndim t == 2 then ok 1 else size t (from_end 2))
  ok (batch_size, nhead)

unfoldable pub rms_norm : {F : Type 0} → Tensor → Tensor → F → Tensor → Outcome (RmsNorm F)
unfolding batch_and_heads
rms_norm input weight eps out = do
  dim ← size out (from_end 1)
  sizes ← batch_and_heads out
  has_dtype out input.dtype
  ok (record {
    input_shape = input.shape;
    out_shape = out.shape;
    input_strides = input.strides;
    out_strides = out.strides;
    eps = eps;
    dim = dim;
    dims = ndim out;
    batch_size = sizes.0;
    nhead = sizes.1;
  })

-- The constructor without `eps`, for which it is 1e-6.
unfoldable pub rms_norm_default :
    {F : Type 0} (millionth : F) → Tensor → Tensor → Tensor → Outcome (RmsNorm F)
unfolding rms_norm
rms_norm_default millionth input weight out = rms_norm input weight millionth out

pub record AddRmsNorm (F : Type 0) : Type 0 where
  pub input_shape : List ℕ
  pub eps : F
  pub dim : ℕ
  pub dims : ℕ
  pub batch_size : ℕ
  pub nhead : ℕ

unfoldable pub add_rms_norm :
    {F : Type 0} (input residual weight : Tensor) (eps : F) (out residual_out : Tensor)
    → Outcome (AddRmsNorm F)
unfolding batch_and_heads
add_rms_norm input residual weight eps out residual_out = do
  dim ← size input (from_end 1)
  sizes ← batch_and_heads input
  has_dtype residual input.dtype
  has_dtype out input.dtype
  has_dtype residual_out input.dtype
  ok (record {
    input_shape = input.shape;
    eps = eps;
    dim = dim;
    dims = ndim input;
    batch_size = sizes.0;
    nhead = sizes.1;
  })

-- The constructor that works in place.
unfoldable pub add_rms_norm_inplace :
    {F : Type 0} (input residual weight : Tensor) (eps : F) → Outcome (AddRmsNorm F)
unfolding add_rms_norm
add_rms_norm_inplace input residual weight eps =
    add_rms_norm input residual weight eps input residual
