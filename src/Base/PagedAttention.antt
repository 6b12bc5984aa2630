-- ===== src/Base/PagedAttention.antt =====
-- The constructor of src/base/paged_attention.h. Integers of type `int64_t` are 64-bit patterns; the
-- scale, a floating-point number, and the fields that copy an argument's metadata are left out.
pub mod Layout
use infini_ops.Prelude.{ℕ, Option, ◌==◌, Outcome, ok, ◌>>=◌, ◌>>◌, assert}
use infini_ops.Prelude.Equality.{same}
use infini_ops.Device.{DeviceType, device_type_eq}
use infini_ops.DataType.{DataType, data_type_eq}
use infini_ops.Tensor.{Tensor, size}
use infini_ops.Base.Checks.{
  has_ndim, same_shape, has_dtype, has_size, has_unit_stride, when_given, is_multiple,
}

pub record PagedAttention : Type 0 where
  pub batch_size : ℕ
  pub num_heads : ℕ
  pub num_kv_heads : ℕ
  pub head_size : ℕ
  pub block_size : ℕ

-- A CPU mirror of a device tensor.
abbrev pub mirrors : Tensor → Tensor → Outcome (Unit {0})
mirrors t host = do
  same_shape host t
  has_dtype host t.dtype
  assert (same host.device.type DeviceType.cpu)

-- The checks of the query and the caches.
unfoldable pub check_caches : Tensor → Tensor → Tensor → Tensor → ℕ → ℕ → ℕ → ℕ → Outcome (Unit {0})
check_caches query key_cache value_cache output num_heads num_kv_heads head_size block_size = do
  divides ← is_multiple num_heads num_kv_heads
  assert divides
  has_ndim query 3
  has_ndim key_cache 4
  has_ndim value_cache 4
  same_shape key_cache value_cache
  has_dtype key_cache query.dtype
  has_dtype value_cache query.dtype
  has_dtype output query.dtype
  has_size query 1 num_heads
  has_size key_cache 1 block_size
  has_size key_cache 2 num_kv_heads
  has_size query 2 head_size
  has_size key_cache 3 head_size
  has_unit_stride query
  has_unit_stride key_cache
  has_unit_stride value_cache
  has_unit_stride output
  same_shape output query

-- The constructor.
unfoldable pub paged_attention :
    (query key_cache value_cache seq_lens block_table : Tensor)
    (num_heads num_kv_heads head_size block_size : ℕ) (output : Tensor)
    (seq_lens_host block_table_host : Option Tensor)
    → Outcome PagedAttention
unfolding check_caches
paged_attention query key_cache value_cache seq_lens block_table num_heads num_kv_heads head_size
      block_size output seq_lens_host block_table_host =
    do
      batch_size ← size query 0
      check_caches query key_cache value_cache output num_heads num_kv_heads head_size block_size
      has_ndim seq_lens 1
      has_size seq_lens 0 batch_size
      has_dtype seq_lens DataType.int32
      has_ndim block_table 2
      has_size block_table 0 batch_size
      has_dtype block_table DataType.int32
      when_given seq_lens_host (mirrors seq_lens)
      when_given block_table_host (mirrors block_table)
      ok (record {
        batch_size = batch_size;
        num_heads = num_heads;
        num_kv_heads = num_kv_heads;
        head_size = head_size;
        block_size = block_size;
      })
