-- ===== src/Base/MhaFwdKvcache.antt =====
-- The constructor of src/base/mha_fwd_kvcache.h. The fields that copy an argument are not repeated;
-- `is_finite` stands for the test of `softmax_scale`, a floating-point number.
use infini_ops.Prelude.{
  ℕ, ◌||◌, Bool, false, Option, none, some, ◌==◌, leb, if◌then◌else◌, Outcome, ok, ◌>>=◌, ◌>>◌,
  assert,
}
use infini_ops.DataType.{DataType, data_type_eq}
use infini_ops.Tensor.{Tensor, ndim, size}
use infini_ops.Base.Checks.{
  has_ndim, same_shape, has_dtype, has_size, has_unit_stride, when_given, is_given,
  is_size_multiple,
}
use infini_ops.Base.FlashAttention.{is_sequence}

pub record MhaFwdKvcache : Type 0 where
  pub batch_size : ℕ
  pub seqlen_q : ℕ
  pub num_heads : ℕ
  pub head_size : ℕ
  pub num_kv_heads : ℕ
  pub page_block_size : ℕ

-- The initialisers, which come before all asserts.
unfoldable pub kvcache_fields : Tensor → Tensor → Option Tensor → Outcome MhaFwdKvcache
kvcache_fields q kcache block_table = do
  batch_size ← size q 0
  seqlen_q ← size q 1
  num_heads ← size q 2
  head_size ← size q 3
  num_kv_heads ← size kcache 2
  page_block_size ← (if is_given block_table then size kcache 1 else ok 0)
  ok (record {
    batch_size = batch_size;
    seqlen_q = seqlen_q;
    num_heads = num_heads;
    head_size = head_size;
    num_kv_heads = num_kv_heads;
    page_block_size = page_block_size;
  })

-- The asserts on the tensors that are always there.
unfoldable pub check_kvcache :
    MhaFwdKvcache → Tensor → Tensor → Tensor → Tensor → Bool → Outcome (Unit {0})
check_kvcache op q kcache vcache out is_finite = do
  has_ndim q 4
  has_ndim kcache 4
  has_ndim vcache 4
  same_shape kcache vcache
  has_dtype kcache q.dtype
  has_dtype vcache q.dtype
  has_dtype out q.dtype
  has_size kcache 3 op.head_size
  has_unit_stride q
  has_unit_stride kcache
  has_unit_stride vcache
  divides ← is_size_multiple op.num_heads op.num_kv_heads
  assert divides
  assert (leb op.head_size 256)
  same_shape out q
  has_unit_stride out
  assert is_finite

-- Appended keys and values: both or none.
unfoldable pub check_appended :
    MhaFwdKvcache → Tensor → Option Tensor → Option Tensor → Outcome (Unit {0})
check_appended op q none none = ok tt
check_appended op q none (some v) = assert false
check_appended op q (some k) none = assert false
check_appended op q (some k) (some v) = do
  has_ndim k 4
  has_ndim v 4
  same_shape k v
  has_dtype k q.dtype
  has_dtype v q.dtype
  has_size k 0 op.batch_size
  has_size k 2 op.num_kv_heads
  has_size k 3 op.head_size
  has_unit_stride k
  has_unit_stride v

unfoldable pub check_rotary : Option Tensor → Option Tensor → Outcome (Unit {0})
check_rotary none none = ok tt
check_rotary none (some sin) = assert false
check_rotary (some cos) none = assert false
check_rotary (some cos) (some sin) = same_shape cos sin

abbrev pub is_int32_with : ℕ → Tensor → Outcome (Unit {0})
is_int32_with dims t = has_ndim t dims >> has_dtype t DataType.int32

abbrev pub is_alibi : Tensor → Outcome (Unit {0})
is_alibi t = assert ((ndim t == 1) || (ndim t == 2)) >> has_dtype t DataType.float32

-- The constructor.
unfoldable pub mha_fwd_kvcache :
    (q kcache vcache : Tensor)
    (k v seqlens_k rotary_cos rotary_sin cache_batch_idx leftpad_k block_table alibi_slopes : Option
      Tensor)
    (out : Tensor) (is_finite : Bool)
    → Outcome MhaFwdKvcache
unfolding kvcache_fields check_kvcache check_appended check_rotary
mha_fwd_kvcache q kcache vcache k v seqlens_k rotary_cos rotary_sin cache_batch_idx leftpad_k
      block_table alibi_slopes out is_finite =
    do
      op ← kvcache_fields q kcache block_table
      check_kvcache op q kcache vcache out is_finite
      check_appended op q k v
      when_given seqlens_k is_sequence
      when_given block_table (is_int32_with 2)
      when_given cache_batch_idx (is_int32_with 1)
      when_given leftpad_k (is_int32_with 1)
      check_rotary rotary_cos rotary_sin
      when_given alibi_slopes is_alibi
      ok op
