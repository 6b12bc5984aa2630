-- ===== src/Ascend/PagedAttentionAtb.antt =====
-- src/native/ascend/atb_common_.h, and the operator of
-- src/native/ascend/ops/paged_attention/kernel_atb.h over it: what the tensors that the library gets say
-- of their sizes, addresses and host copies. The context, the workspace and the run of the operation
-- are left out.
pub mod Descriptors
pub mod Fields
pub mod Laws
use infini_ops.Prelude.{
  ℕ, ◌%◌, ◌^◌, Bool, true, false, not, List, [], ◌∷◌, Option, none, some, ◌==◌, leb, if◌then◌else◌,
  length, ◌++◌, get_elem?, Outcome, ok, ◌>>=◌, ◌>>◌, assert, access, mul64,
}
use infini_ops.Tensor.{Tensor, ndim, numel, size, element_size}
use infini_ops.Base.Checks.{is_given}
use infini_ops.Base.PagedAttention.{PagedAttention}
use infini_ops.Ascend.AclDtype.{AclDtype, to_acl_dtype}

-- `atb::Tensor`, as far as it is set. `host_data` is missing for the null pointer.
pub record AtbTensor : Type 0 where
  pub dtype : AclDtype
  pub dims : List ℕ
  pub device_data : ℕ
  pub data_size : ℕ
  pub host_data : Option ℕ

-- The library's `MAX_DIM` is a parameter.
module _ (max_dim : ℕ) where
  -- `ToAtbTensor` of a tensor.
  unfoldable pub to_atb_tensor : Tensor → Outcome AtbTensor
  to_atb_tensor t = do
    dtype ← to_acl_dtype t.dtype
    assert (leb (ndim t) max_dim)
    bytes ← element_size t
    ok (record {
      dtype = dtype;
      dims = t.shape;
      device_data = t.data_;
      data_size = mul64 (numel t) bytes;
      host_data = none;
    })

  -- `ToAtbTensor` of a shape, a type, an address and a size.
  unfoldable pub to_atb_tensor_of : List ℕ → AclDtype → ℕ → ℕ → Outcome AtbTensor
  to_atb_tensor_of shape dtype data_ data_size = do
    assert (leb (length shape) max_dim)
    ok (record {
      dtype = dtype;
      dims = shape;
      device_data = data_;
      data_size = data_size;
      host_data = none;
    })

-- The fields of the operator. `bt_host` and `sl_host` are its own buffers, and 0 for none.
pub record PagedAttentionAtb : Type 0 where
  pub query_tnd_shape : List ℕ
  pub output_tnd_shape : List ℕ
  pub kv_cache_shape : List ℕ
  pub block_table_shape : List ℕ
  pub context_lens_shape : List ℕ
  pub acl_dt : AclDtype
  pub bt_dt : AclDtype
  pub sl_dt : AclDtype
  pub elem_size : ℕ
  pub bt_elem_size : ℕ
  pub sl_elem_size : ℕ
  pub bt_host : ℕ
  pub sl_host : ℕ
  pub bt_host_bytes : ℕ
  pub sl_host_bytes : ℕ
  pub head_num : ℕ
  pub kv_head_num : ℕ

-- The buffer that `std::malloc` gives, 0 for none, unless the caller has one.
abbrev pub buffer_unless : Bool → ℕ → Outcome ℕ
buffer_unless given buffer = if given then ok 0 else (assert (not (buffer == 0)) >> ok buffer)

-- The constructor, after that of the base class: `bt_buffer` and `sl_buffer` are what the two calls of
-- `std::malloc` give, and `creates` says whether the library makes the operation.
unfoldable pub paged_attention_atb :
    (bt_buffer sl_buffer : ℕ) (creates : Bool)
    → PagedAttention
    → (query key_cache seq_lens block_table : Tensor)
      (seq_lens_host block_table_host : Option Tensor)
    → Outcome PagedAttentionAtb
paged_attention_atb bt_buffer sl_buffer creates base query key_cache seq_lens block_table
      seq_lens_host block_table_host =
    do
      num_blocks ← size key_cache 0
      bs ← size key_cache 1
      max_blocks ← size block_table 1
      acl_dt ← to_acl_dtype query.dtype
      bt_dt ← to_acl_dtype block_table.dtype
      sl_dt ← to_acl_dtype seq_lens.dtype
      elem_size ← element_size query
      bt_elem_size ← element_size block_table
      sl_elem_size ← element_size seq_lens
      bt_host ← buffer_unless (is_given block_table_host) bt_buffer
      sl_host ← buffer_unless (is_given seq_lens_host) sl_buffer
      assert creates
      ok (record {
        query_tnd_shape = base.batch_size ∷ base.num_heads ∷ base.head_size ∷ [];
        output_tnd_shape = base.batch_size ∷ base.num_heads ∷ base.head_size ∷ [];
        kv_cache_shape = num_blocks ∷ bs ∷ base.num_kv_heads ∷ base.head_size ∷ [];
        block_table_shape = base.batch_size ∷ max_blocks ∷ [];
        context_lens_shape = base.batch_size ∷ [];
        acl_dt = acl_dt;
        bt_dt = bt_dt;
        sl_dt = sl_dt;
        elem_size = elem_size;
        bt_elem_size = bt_elem_size;
        sl_elem_size = sl_elem_size;
        bt_host = bt_host;
        sl_host = sl_host;
        bt_host_bytes = mul64 (mul64 base.batch_size max_blocks) bt_elem_size;
        sl_host_bytes = mul64 base.batch_size sl_elem_size;
        head_num = base.num_heads % 2 ^ 32;
        kv_head_num = base.num_kv_heads % 2 ^ 32;
      })

-- `atb::VariantPack`, with its tensors in order.
pub record VariantPack : Type 0 where
  pub query : AtbTensor
  pub key_cache : AtbTensor
  pub value_cache : AtbTensor
  pub block_table : AtbTensor
  pub context_lens : AtbTensor
  pub output : AtbTensor

-- A copy from the device to the host: its destination, source and bytes.
pub record HostCopy : Type 0 where
  pub to : ℕ
  pub from : ℕ
  pub bytes : ℕ

-- The address of the host's numbers, and the copy that brings them there.
abbrev pub host_numbers_of : Option Tensor → Tensor → (own bytes : ℕ) → ℕ × List HostCopy
host_numbers_of (some host) t own bytes = (host.data_, [])
host_numbers_of none t own bytes = (own, record { to = own; from = t.data_; bytes = bytes } ∷ [])

module _ (max_dim : ℕ) where
  -- `buildVariantPack`.
  unfoldable pub build_variant_pack :
      PagedAttentionAtb
      → (query_data key_cache_data value_cache_data block_table_data seq_lens_data output_data
          bt_host_ptr sl_host_ptr : ℕ)
      → Outcome VariantPack
  unfolding to_atb_tensor_of
  build_variant_pack op query_data key_cache_data value_cache_data block_table_data seq_lens_data
        output_data bt_host_ptr sl_host_ptr =
      do
        b ← access (get_elem? op.query_tnd_shape 0)
        n ← access (get_elem? op.query_tnd_shape 1)
        d ← access (get_elem? op.query_tnd_shape 2)
        let q_bytes = mul64 (mul64 (mul64 b n) d) op.elem_size
        t_query ← to_atb_tensor_of max_dim op.query_tnd_shape op.acl_dt query_data q_bytes
        nb ← access (get_elem? op.kv_cache_shape 0)
        bs ← access (get_elem? op.kv_cache_shape 1)
        nkv ← access (get_elem? op.kv_cache_shape 2)
        let kv_bytes = mul64 (mul64 (mul64 (mul64 nb bs) nkv) d) op.elem_size
        t_key_cache ← to_atb_tensor_of max_dim op.kv_cache_shape op.acl_dt key_cache_data kv_bytes
        t_value_cache ←
            to_atb_tensor_of max_dim op.kv_cache_shape op.acl_dt value_cache_data kv_bytes
        t_block_table ←
            to_atb_tensor_of max_dim op.block_table_shape op.bt_dt block_table_data op.bt_host_bytes
        t_context_lens ←
            to_atb_tensor_of max_dim op.context_lens_shape op.sl_dt seq_lens_data op.sl_host_bytes
        t_output ← to_atb_tensor_of max_dim op.output_tnd_shape op.acl_dt output_data q_bytes
        ok (record {
          query = t_query;
          key_cache = t_key_cache;
          value_cache = t_value_cache;
          block_table = record t_block_table { host_data = some bt_host_ptr };
          context_lens = record t_context_lens { host_data = some sl_host_ptr };
          output = t_output;
        })

  -- `operator()`: the copies to the host, and what the library gets.
  unfoldable pub paged_attention_atb_call :
      PagedAttentionAtb
      → (query key_cache value_cache seq_lens block_table output : Tensor)
        (seq_lens_host block_table_host : Option Tensor)
      → Outcome (List HostCopy × VariantPack)
  unfolding build_variant_pack
  paged_attention_atb_call op query key_cache value_cache seq_lens block_table output seq_lens_host
        block_table_host =
      do
        let table = host_numbers_of block_table_host block_table op.bt_host op.bt_host_bytes
        let lens = host_numbers_of seq_lens_host seq_lens op.sl_host op.sl_host_bytes
        pack ←
            build_variant_pack op query.data_ key_cache.data_ value_cache.data_ block_table.data_
              seq_lens.data_ output.data_ (table.0) (lens.0)
        ok (table.1 ++ lens.1, pack)
