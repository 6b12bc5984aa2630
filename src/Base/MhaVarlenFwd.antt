-- ===== src/Base/MhaVarlenFwd.antt =====
-- The constructor of src/base/mha_varlen_fwd.h. The fields that copy an argument are not repeated.
-- `is_probability` and `is_finite` stand for the tests of `p_dropout` and of `softmax_scale`, which
-- are floating-point numbers.
pub mod Accepted
use infini_ops.Prelude.{
  ℕ, ◌%◌, ◌||◌, Bool, not, Option, none, some, ◌==◌, leb, ltb, if◌then◌else◌, Outcome, ok, ◌>>=◌,
  ◌>>◌, assert, sub64, negative,
}
use infini_ops.Prelude.Equality.{same}
use infini_ops.DataType.{DataType, data_type_eq}
use infini_ops.Tensor.{Tensor, ndim, size, numel}
use infini_ops.Base.Checks.{
  has_ndim, same_shape, has_dtype, has_size, has_unit_stride, when_given, is_given,
  is_size_multiple,
}
use infini_ops.Base.MhaFwdKvcache.{is_int32_with, is_alibi}

pub record MhaVarlenFwd : Type 0 where
  pub batch_size : ℕ
  pub total_q : ℕ
  pub num_heads : ℕ
  pub head_size : ℕ
  pub num_kv_heads : ℕ

-- The initialisers.
unfoldable pub varlen_fields : Tensor → Tensor → Tensor → Option Tensor → Outcome MhaVarlenFwd
varlen_fields q k cu_seqlens_q block_table = do
  total_q ← size q 0
  num_heads ← size q 1
  head_size ← size q 2
  num_kv_heads ← (if is_given block_table then size k 2 else size k 1)
  ok (record {
    batch_size = sub64 (numel cu_seqlens_q) 1;
    total_q = total_q;
    num_heads = num_heads;
    head_size = head_size;
    num_kv_heads = num_kv_heads;
  })

-- The asserts on the keys and values, by whether they are paged.
unfoldable pub check_paged : MhaVarlenFwd → Tensor → Tensor → Option Tensor → Outcome (Unit {0})
check_paged op k v none = do has_ndim k 3; has_ndim v 3; same_shape k v; has_size k 2 op.head_size
check_paged op k v (some block_table) = do
  has_ndim k 4
  has_ndim v 4
  is_int32_with 2 block_table
  same_shape k v
  has_size k 3 op.head_size

-- The asserts on the shapes of the heads and of the sequences.
unfoldable pub check_varlen :
    MhaVarlenFwd → Tensor → Tensor → Tensor → Tensor → Tensor → Tensor → Outcome (Unit {0})
check_varlen op q k v out cu_seqlens_q cu_seqlens_k = do
  has_dtype k q.dtype
  has_dtype v q.dtype
  has_dtype out q.dtype
  has_unit_stride k
  has_unit_stride v
  has_unit_stride q
  divides ← is_size_multiple op.num_heads op.num_kv_heads
  assert divides
  assert (leb op.head_size 256)
  assert (op.head_size % 8 == 0)
  has_ndim cu_seqlens_q 1
  has_ndim cu_seqlens_k 1
  has_dtype cu_seqlens_q DataType.int32
  has_dtype cu_seqlens_k DataType.int32
  assert (ltb 1 (numel cu_seqlens_q))
  assert (numel cu_seqlens_q == numel cu_seqlens_k)
  same_shape out q
  has_unit_stride out

-- The constructor.
unfoldable pub mha_varlen_fwd :
    (q k v out cu_seqlens_q cu_seqlens_k : Tensor)
    (seqused_k leftpad_k block_table alibi_slopes : Option Tensor) (max_seqlen_q max_seqlen_k : ℕ)
    (is_probability is_finite : Bool)
    → Outcome MhaVarlenFwd
unfolding varlen_fields check_paged check_varlen
mha_varlen_fwd q k v out cu_seqlens_q cu_seqlens_k seqused_k leftpad_k block_table alibi_slopes
      max_seqlen_q max_seqlen_k is_probability is_finite =
    do
      op ← varlen_fields q k cu_seqlens_q block_table
      has_ndim q 3
      check_paged op k v block_table
      check_varlen op q k v out cu_seqlens_q cu_seqlens_k
      assert is_probability
      assert is_finite
      assert (not (negative max_seqlen_q))
      assert (not (negative max_seqlen_k))
      when_given seqused_k (is_int32_with 1)
      when_given leftpad_k (is_int32_with 1)
      when_given alibi_slopes is_alibi
      ok op
