-- ===== src/Examples/Fused.antt =====
-- The fused attention of Ascend at concrete inputs.
use infini_ops.Prelude.{
  ◌+◌, ℕ, List, Option, ◌>>=◌, ◌≡◌, ◌↔◌, refl, arith, true, false, [], ◌∷◌, none, some, ok, ltb,
}
use infini_ops.DataType.{DataType, float16, size_of}
use infini_ops.Device.{default_device}
use infini_ops.Tensor.{element_size, Tensor, strided, numel, size, get_effective_index}
use infini_ops.Base.FlashAttention.{FlashAttention}
use infini_ops.Ascend.AclDtype.{AclDtype, to_acl_dtype}
use infini_ops.Ascend.AclTensor.{
  TensorMeta, meta_of, storage_elems, storage_from, grow_storage, transposed,
}
use infini_ops.Ascend.Fia.{Memory, without_first, create_cum_seq_lengths, resolve_sparse_mode}
use infini_ops.Ascend.FlashAttention.{
  Descriptor, tnd, FiaCall, Prepared, prefill, prepare, cum_seq_lengths, flash_attention_call,
  sparse_tokens,
}
use infini_ops.Ascend.PagedAttentionAtb.{
  AtbTensor, to_atb_tensor, to_atb_tensor_of, PagedAttentionAtb, paged_attention_atb, VariantPack,
  HostCopy, build_variant_pack, paged_attention_atb_call,
}
use infini_ops.Ascend.PagedAttentionAtb.Descriptors.{at_address, with_host}
use infini_ops.Ascend.PagedAttentionAtb.Laws.{paged_attention_atb_call-tensors}
use infini_ops.Base.RotaryEmbedding.{RotaryEmbedding}
use infini_ops.Ascend.RotaryTables.{upload_cos_sin}
use infini_ops.Ascend.RotaryOperator.{
  RotaryOperator, RotaryCall, gathered, upload, rotary_operator, refresh_tables, operands,
  rotary_call,
}
use infini_ops.Ascend.RotaryOperator.Laws.{made, rotary_call-tables}
use infini_ops.Examples.Attention.{query, keys, lens, table, paged, paged_runs}
use infini_ops.Ascend.FlashAttention.Laws.{flash_attention_call-masked, cum_seq_lengths-widths}

-- Memory with the 32-bit numbers 0, 2 and 5, of which the first two are one number of 64 bits.
abbrev second_of : DataType → ℕ
second_of DataType.int64 = 5
second_of _ = 2

abbrev two_widths : Memory
two_widths = record {
  numbers = λ dtype address n. 0 ∷ second_of dtype ∷ 5 ∷ [];
  copies = λ address bytes. true;
  synchronizes = true;
}

abbrev ends : Tensor
ends = strided 4096 (3 ∷ []) DataType.int32 default_device (1 ∷ [])

cum_seq_lengths-widths_example :
    (ends.dtype ≡ DataType.int64
      → cum_seq_lengths two_widths ends ≡ create_cum_seq_lengths two_widths ends)
    × (ends.dtype ≡ DataType.int32
        → (cum_seq_lengths two_widths ends ≡ create_cum_seq_lengths two_widths ends) ↔ (
            without_first two_widths (two_widths.numbers DataType.int64 4096 (numel ends))
            ≡ without_first two_widths (two_widths.numbers DataType.int32 4096 (numel ends))))
unfolding numel
cum_seq_lengths-widths_example =
    cum_seq_lengths-widths two_widths ends refl refl (omega arith) (λ dtype. omega arith)

abbrev packed : Tensor
packed = strided 8192 (5 ∷ 2 ∷ 4 ∷ []) float16 default_device (8 ∷ 4 ∷ 1 ∷ [])

abbrev attention : FlashAttention
attention = record {
  num_tokens = 5;
  num_heads = 2;
  num_kv_heads = 2;
  head_size = 4;
  causal = true;
  window_left = 3;
  window_right = 0;
  block_size = 0;
}

abbrev packed_meta : TensorMeta
packed_meta = record {
  shape = 5 ∷ 2 ∷ 4 ∷ [];
  strides = 8 ∷ 4 ∷ 1 ∷ [];
  storage_shape = 40 ∷ [];
  dtype = AclDtype.acl_float16;
}

packed_meta_runs : meta_of packed false ≡ ok packed_meta
unfolding meta_of storage_elems storage_from grow_storage transposed to_acl_dtype
packed_meta_runs = refl

abbrev prepared : Prepared
prepared = prefill packed_meta packed_meta true

prepared_runs : prepare packed packed packed none true 0 ≡ ok prepared
unfolding prepare to_acl_dtype
prepared_runs = rw packed_meta_runs refl

abbrev at_packed : Descriptor
at_packed = record { kept = packed_meta; address = 8192 }

-- A window of three tokens to the left of each.
abbrev windowed : FiaCall
windowed = record {
  query = at_packed;
  key = at_packed;
  value = at_packed;
  is_masked = true;
  seq_q = some (5 ∷ []);
  seq_kv = 5 ∷ [];
  block_table = none;
  num_heads = 2;
  pre_tokens = 3;
  next_tokens = 0;
  layout = tnd;
  num_kv_heads = 2;
  sparse_mode = 4;
  block_size = 0;
  output = at_packed;
}

windowed_runs :
    flash_attention_call two_widths attention prepared packed packed packed none none none 2 2 true
      0 packed
    ≡ ok windowed
unfolding flash_attention_call sparse_tokens size get_effective_index
windowed_runs = rw packed_meta_runs refl

flash_attention_call-masked_example :
    (windowed.is_masked ≡ ltb 1 windowed.sparse_mode)
    × (windowed.layout ≡ tnd
        → (let mode = resolve_sparse_mode true 3 0 in
            (windowed.sparse_mode ≡ mode.sparse_mode)
            × (windowed.pre_tokens ≡ mode.pre_tokens)
            × (windowed.next_tokens ≡ mode.next_tokens)))
flash_attention_call-masked_example =
    flash_attention_call-masked two_widths attention prepared packed packed packed none none none 2
      2 true 0 packed windowed prepared_runs windowed_runs

-- An operator with buffers at 64 and 96 for the copies to the host.
abbrev buffered : PagedAttentionAtb
buffered = record {
  query_tnd_shape = 1 ∷ 4 ∷ 8 ∷ [];
  output_tnd_shape = 1 ∷ 4 ∷ 8 ∷ [];
  kv_cache_shape = 5 ∷ 16 ∷ 2 ∷ 8 ∷ [];
  block_table_shape = 1 ∷ 5 ∷ [];
  context_lens_shape = 1 ∷ [];
  acl_dt = AclDtype.acl_float16;
  bt_dt = AclDtype.acl_int32;
  sl_dt = AclDtype.acl_int32;
  elem_size = 2;
  bt_elem_size = 4;
  sl_elem_size = 4;
  bt_host = 64;
  sl_host = 96;
  bt_host_bytes = 20;
  sl_host_bytes = 4;
  head_num = 4;
  kv_head_num = 2;
}

buffered_runs : paged_attention_atb 64 96 true paged query keys lens table none none ≡ ok buffered
unfolding paged_attention_atb to_acl_dtype element_size size_of size get_effective_index
buffered_runs = refl

abbrev told : AclDtype → List ℕ → ℕ → ℕ → Option ℕ → AtbTensor
told dtype dims device_data data_size host_data = record {
  dtype = dtype;
  dims = dims;
  device_data = device_data;
  data_size = data_size;
  host_data = host_data;
}

abbrev pack : VariantPack
pack = record {
  query = told AclDtype.acl_float16 (1 ∷ 4 ∷ 8 ∷ []) 1000 64 none;
  key_cache = told AclDtype.acl_float16 (5 ∷ 16 ∷ 2 ∷ 8 ∷ []) 2000 2560 none;
  value_cache = told AclDtype.acl_float16 (5 ∷ 16 ∷ 2 ∷ 8 ∷ []) 5000 2560 none;
  block_table = told AclDtype.acl_int32 (1 ∷ 5 ∷ []) 8000 20 (some 64);
  context_lens = told AclDtype.acl_int32 (1 ∷ []) 9000 4 (some 96);
  output = told AclDtype.acl_float16 (1 ∷ 4 ∷ 8 ∷ []) 3000 64 none;
}

abbrev to_host : List HostCopy
to_host =
    record { to = 64; from = 8000; bytes = 20 } ∷ record { to = 96; from = 9000; bytes = 4 } ∷ []

pack_runs :
    paged_attention_atb_call 8 buffered
      (at_address 1000 query)
      (at_address 2000 keys)
      (at_address 5000 keys)
      (at_address 9000 lens)
      (at_address 8000 table)
      (at_address 3000 query)
      none
      none
    ≡ ok (to_host, pack)
unfolding paged_attention_atb_call build_variant_pack to_atb_tensor_of
pack_runs = refl

paged_attention_atb_call-tensors_example :
    (to_atb_tensor 8 (at_address 1000 query) ≡ ok pack.query)
    × (to_atb_tensor 8 (at_address 2000 keys) ≡ ok pack.key_cache)
    × (to_atb_tensor 8 (at_address 5000 keys) ≡ ok pack.value_cache)
    × ((to_atb_tensor 8 (at_address 8000 table) >>= λ x. ok (with_host 64 x)) ≡ ok pack.block_table)
    × ((to_atb_tensor 8 (at_address 9000 lens) >>= λ x. ok (with_host 96 x)) ≡ ok pack.context_lens)
    × (to_atb_tensor 8 (at_address 3000 query) ≡ ok pack.output)
    × (to_host ≡ to_host)
paged_attention_atb_call-tensors_example =
    paged_attention_atb_call-tensors 8 query keys keys lens table 4 2 8 16 query none none paged 64
      96 true buffered 1000 2000 5000 9000 8000 3000 to_host pack paged_runs buffered_runs pack_runs

-- A cache of 16 positions at 4096, and one of other numbers at 8192.
abbrev angles_at : ℕ → Tensor
angles_at address = strided address (16 ∷ 8 ∷ []) float16 default_device (8 ∷ 1 ∷ [])

abbrev token_numbers : Tensor
token_numbers = strided 100 (2 ∷ []) DataType.int64 default_device (1 ∷ [])

abbrev heads : Tensor
heads = strided 200 (2 ∷ 4 ∷ 8 ∷ []) float16 default_device (32 ∷ 8 ∷ 1 ∷ [])

abbrev rotary : RotaryEmbedding
rotary = record {
  num_tokens = 2;
  num_heads = 4;
  num_kv_heads = 4;
  head_size = 8;
  rotary_dim = 8;
  is_neox_style = true;
  has_key = true;
  pre_gathered = false;
}

abbrev rotary_before : RotaryOperator ℕ
rotary_before = record {
  base = rotary;
  max_seq_len = 16;
  elem_sz = 2;
  acl_dt = AclDtype.acl_float16;
  uploaded = some (upload ◌+◌ 0 8 16 (angles_at 4096));
}

rotary_made : rotary_operator ◌+◌ 0 rotary heads (angles_at 4096) ≡ ok rotary_before
unfolding rotary_operator size element_size size_of to_acl_dtype get_effective_index
rotary_made = refl

abbrev other_tables : (ℕ → ℕ) × (ℕ → ℕ)
other_tables = upload_cos_sin 8 (λ n. 8192 + n) 0 16

abbrev rotary_step : RotaryOperator ℕ × RotaryCall ℕ
rotary_step = (
  record rotary_before { uploaded = some (upload ◌+◌ 0 8 16 (angles_at 8192)) },
  record {
    copies = [];
    query = 200;
    key = 200;
    cos = gathered (other_tables.0) 100;
    sin = gathered (other_tables.1) 100;
  },
)

rotary_runs :
    rotary_call ◌+◌ 0 rotary_before token_numbers heads
      (some heads)
      8
      (angles_at 8192)
      none
      none
      false
    ≡ ok rotary_step
unfolding rotary_call operands refresh_tables upload size element_size size_of get_effective_index
rotary_runs = refl

rotary_call-tables_example :
    ((rotary_step.1).cos ≡ gathered (other_tables.0) 100)
    × ((rotary_step.1).sin ≡ gathered (other_tables.1) 100)
    × ((rotary_step.1).query ≡ 200)
rotary_call-tables_example =
    rotary_call-tables ◌+◌ 0 rotary_before (rotary_step.0) (rotary_step.1) token_numbers heads
      (some heads) 8 (angles_at 8192) none none
      (made rotary heads (angles_at 4096) rotary_before rotary_made) rotary_runs
