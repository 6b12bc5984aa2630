-- ===== src/Base/ReshapeAndCache.antt =====
-- The constructor of src/base/reshape_and_cache.h.
use infini_ops.Prelude.{ℕ, List, Outcome, ok, ◌>>=◌, ◌>>◌}
use infini_ops.Tensor.{Tensor, size}
use infini_ops.Base.Checks.{has_ndim, same_shape}

pub record ReshapeAndCache : Type 0 where
  pub num_tokens : ℕ
  pub num_kv_heads : ℕ
  pub head_size : ℕ
  pub block_size : ℕ
  pub key_shape : List ℕ
  pub value_shape : List ℕ
  pub kv_cache_shape : List ℕ
  pub slot_mapping_shape : List ℕ
  pub key_strides : List ℕ
  pub value_strides : List ℕ
  pub kv_cache_strides : List ℕ
  pub slot_mapping_strides : List ℕ
  pub kv_cache_out_strides : List ℕ

unfoldable pub reshape_and_cache :
    (key value kv_cache slot_mapping kv_cache_out : Tensor) → Outcome ReshapeAndCache
reshape_and_cache key value kv_cache slot_mapping kv_cache_out = do
  num_tokens ← size key 0
  num_kv_heads ← size key 1
  head_size ← size key 2
  block_size ← size kv_cache 2
  same_shape key value
  has_ndim kv_cache 5
  has_ndim slot_mapping 1
  ok (record {
    num_tokens = num_tokens;
    num_kv_heads = num_kv_heads;
    head_size = head_size;
    block_size = block_size;
    key_shape = key.shape;
    value_shape = value.shape;
    kv_cache_shape = kv_cache.shape;
    slot_mapping_shape = slot_mapping.shape;
    key_strides = key.strides;
    value_strides = value.strides;
    kv_cache_strides = kv_cache.strides;
    slot_mapping_strides = slot_mapping.strides;
    kv_cache_out_strides = kv_cache_out.strides;
  })
