-- ===== src/Ascend/CacheViews.antt =====
-- The constructor of src/native/ascend/ops/reshape_and_cache/kernel.h: the views of the key and the
-- value cache that the device writes through. The calls of the vendor's library are left out.
pub mod Laws
use infini_ops.Prelude.{ℕ, false, List, [], ◌∷◌, Outcome, ok, ◌>>=◌, mul64}
use infini_ops.Tensor.{Tensor, size, stride, element_size}
use infini_ops.Base.ReshapeAndCache.{ReshapeAndCache}
use infini_ops.Ascend.AclDtype.{to_acl_dtype}
use infini_ops.Ascend.AclTensor.{TensorMeta, meta_of, meta_of_shape}

-- `view` is the metadata of both caches; the value cache starts `v_offset_bytes` after the key cache.
pub record CacheViews : Type 0 where
  pub view : TensorMeta
  pub v_offset_bytes : ℕ
  pub key_view : TensorMeta
  pub value_view : TensorMeta
  pub slot_view : TensorMeta

unfoldable pub cache_views :
    ReshapeAndCache → (key value kv_cache slot_mapping kv_cache_out : Tensor) → Outcome CacheViews
cache_views op key value kv_cache slot_mapping kv_cache_out = do
  key_view ← meta_of key false
  value_view ← meta_of value false
  slot_view ← meta_of slot_mapping false
  num_blocks ← size kv_cache 1
  acl_dt ← to_acl_dtype key.dtype
  step ← stride kv_cache_out 0
  bytes ← element_size kv_cache_out
  ok (record {
    view =
        meta_of_shape (mul64 num_blocks op.block_size ∷ op.num_kv_heads ∷ op.head_size ∷ []) acl_dt;
    v_offset_bytes = mul64 step bytes;
    key_view = key_view;
    value_view = value_view;
    slot_view = slot_view;
  })
