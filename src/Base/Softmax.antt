-- ===== src/Base/Softmax.antt =====
-- The constructors of src/base/causal_softmax.h and src/base/scaled_softmax.h. `D` is `double`.
use infini_ops.Prelude.{
  ℕ, ◌==◌, leb, if◌then◌else◌, Bool, ◌||◌, List, Outcome, ok, ◌>>=◌, ◌>>◌, assert,
}
use infini_ops.DataType.{DataType, data_type_eq}
use infini_ops.Tensor.{Tensor, ndim, size}
use infini_ops.Base.Checks.{from_end, has_ndim, has_dtype, same_shape, is_float}

pub record CausalSoftmax : Type 0 where
  pub dtype : DataType
  pub dims : ℕ
  pub batch_size : ℕ
  pub seq_len : ℕ
  pub total_seq_len : ℕ
  pub input_strides : List ℕ
  pub out_strides : List ℕ

unfoldable pub causal_softmax : Tensor → Tensor → Outcome CausalSoftmax
causal_softmax input out = do
  batch_size ← (if ndim out == 2 then ok 1 else size out (from_end 3))
  seq_len ← size out (from_end 2)
  total_seq_len ← size out (from_end 1)
  same_shape input out
  has_dtype out input.dtype
  assert ((ndim out == 2) || (ndim out == 3))
  assert (leb seq_len total_seq_len)
  ok (record {
    dtype = input.dtype;
    dims = ndim out;
    batch_size = batch_size;
    seq_len = seq_len;
    total_seq_len = total_seq_len;
    input_strides = input.strides;
    out_strides = out.strides;
  })

pub record ScaledSoftmax (D : Type 0) : Type 0 where
  pub scale : D
  pub batch_size : ℕ
  pub vocab_size : ℕ
  pub dtype : DataType
  pub input_strides : List ℕ
  pub out_strides : List ℕ

-- `is_finite` is `std::isfinite`.
unfoldable pub scaled_softmax :
    {D : Type 0} (is_finite : D → Bool) → Tensor → D → Tensor → Outcome (ScaledSoftmax D)
scaled_softmax is_finite input scale out = do
  batch_size ← size input 0
  vocab_size ← size input 1
  has_ndim input 2
  same_shape input out
  has_dtype out input.dtype
  assert (is_float input.dtype)
  assert (is_finite scale)
  ok (record {
    scale = scale;
    batch_size = batch_size;
    vocab_size = vocab_size;
    dtype = input.dtype;
    input_strides = input.strides;
    out_strides = out.strides;
  })
