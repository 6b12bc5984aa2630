-- ===== src/Base/Sampling.antt =====
-- The constructors of src/base/top_k_top_p_sampler.h and src/base/topk_topp_sampling.h.
use infini_ops.Prelude.{ℕ, ◌==◌, ◌||◌, Option, Outcome, ok, ◌>>=◌, ◌>>◌, assert}
use infini_ops.DataType.{DataType, data_type_eq, int32}
use infini_ops.Tensor.{Tensor, size}
use infini_ops.Base.Checks.{has_ndim, has_dtype, has_size, when_given, is_float, is_index_type}

pub record TopKTopPSampler : Type 0 where
  pub batch_size : ℕ
  pub vocab_size : ℕ
  pub dtype : DataType

-- `size(0) == 1 || size(0) == batch_size_`.
abbrev pub one_or_each : Tensor → ℕ → Outcome (Unit {0})
one_or_each t batch_size = size t 0 >>= λ n. assert ((n == 1) || (n == batch_size))

-- `ValidateK`, on a `k` that is given.
unfoldable pub validate_k : ℕ → Tensor → Outcome (Unit {0})
validate_k batch_size k = do has_ndim k 1; one_or_each k batch_size; assert (is_index_type k.dtype)

-- `ValidateP`, on a `p` that is given.
unfoldable pub validate_p : ℕ → Tensor → Outcome (Unit {0})
validate_p batch_size p = do has_ndim p 1; one_or_each p batch_size; assert (is_float p.dtype)

unfoldable pub top_k_top_p_sampler :
    (logits : Tensor) (k p : Option Tensor) (out : Tensor) → Outcome TopKTopPSampler
top_k_top_p_sampler logits k p out = do
  batch_size ← size logits 0
  vocab_size ← size logits 1
  has_ndim logits 2
  assert (is_float logits.dtype)
  has_ndim out 1
  has_size out 0 batch_size
  has_dtype out int32
  when_given k (validate_k batch_size)
  when_given p (validate_p batch_size)
  ok (record { batch_size = batch_size; vocab_size = vocab_size; dtype = logits.dtype })

-- `D` is `double`.
pub record TopkToppSampling (D : Type 0) : Type 0 where
  pub batch_size : ℕ
  pub vocab_size : ℕ
  pub topk : ℕ
  pub topp : D
  pub dtype : DataType

unfoldable pub topk_topp_sampling :
    {D : Type 0} → Tensor → ℕ → D → Tensor → Outcome (TopkToppSampling D)
topk_topp_sampling probs topk topp out = do
  batch_size ← size probs 0
  vocab_size ← size probs 1
  has_ndim probs 2
  has_ndim out 1
  rows ← size probs 0
  has_size out 0 rows
  ok (record {
    batch_size = batch_size;
    vocab_size = vocab_size;
    topk = topk;
    topp = topp;
    dtype = probs.dtype;
  })
