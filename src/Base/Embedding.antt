-- ===== src/Base/Embedding.antt =====
-- The constructor of src/base/embedding.h.
pub mod Accepted
use infini_ops.Prelude.{ℕ, zero, suc, ◌+◌, ◌==◌, List, Outcome, ok, ◌>>=◌, ◌>>◌, assert}
use infini_ops.DataType.{DataType, data_type_eq}
use infini_ops.Tensor.{Tensor, ndim, size, numel}
use infini_ops.Base.Checks.{from_end, has_ndim, has_dtype, has_size, is_index_type}

pub record Embedding : Type 0 where
  pub num_tokens : ℕ
  pub vocab_size : ℕ
  pub hidden_size : ℕ
  pub input_dtype : DataType
  pub weight_dtype : DataType

-- The loop over the dimensions from `i` on, with `rounds` to go.
unfoldable pub prefix_matches : Tensor → Tensor → ℕ → ℕ → Outcome (Unit {0})
prefix_matches out input_ids zero i = ok tt
prefix_matches out input_ids (suc rounds) i = do
  s ← size input_ids i
  has_size out i s
  prefix_matches out input_ids rounds (i + 1)

unfoldable pub embedding : Tensor → Tensor → Tensor → Outcome Embedding
unfolding prefix_matches
embedding input_ids weight out = do
  vocab_size ← size weight 0
  hidden_size ← size weight 1
  assert (is_index_type input_ids.dtype)
  has_ndim weight 2
  has_dtype out weight.dtype
  has_ndim out (ndim input_ids + 1)
  has_size out (from_end 1) hidden_size
  prefix_matches out input_ids (ndim input_ids) 0
  ok (record {
    num_tokens = numel input_ids;
    vocab_size = vocab_size;
    hidden_size = hidden_size;
    input_dtype = input_ids.dtype;
    weight_dtype = weight.dtype;
  })
