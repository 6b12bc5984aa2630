-- ===== src/Ascend/FlashAttention.antt =====
-- src/native/ascend/ops/flash_attention/kernel.h: the numbers and descriptors that the operator gives to
-- the fused attention of the vendor's library. Integers are 64-bit patterns. The workspace, the
-- executor and the lists that hold one descriptor each are left out.
pub mod Laws
use infini_ops.Prelude.{
  ℕ, zero, suc, ◌+◌, ◌-◌, ◌*◌, Bool, true, false, not, ◌&&◌, List, [], ◌∷◌, Option, none, some,
  ◌==◌, ltb, if◌then◌else◌, Outcome, Fault, ok, fail, ◌>>=◌, ◌>>◌, assert, access, mul64, negative,
  positive,
}
use infini_ops.Prelude.Equality.{same}
use infini_ops.Device.{DeviceType, device_type_eq}
use infini_ops.DataType.{DataType}
use infini_ops.Tensor.{Tensor, numel, size}
use infini_ops.Base.Checks.{is_given}
use infini_ops.Base.FlashAttention.{FlashAttention}
use infini_ops.Cpu.MatrixLoops.{for_from, write_at}
use infini_ops.Ascend.AclDtype.{AclDtype, to_acl_dtype}
use infini_ops.Ascend.AclTensor.{TensorMeta, meta_of, meta_of_shape}
use infini_ops.Ascend.Fia.{Memory, without_first, differences, all_tokens}

-- A vector of `n` zeros.
abbrev pub zeros : ℕ → List ℕ
zeros zero = []
zeros (suc n) = 0 ∷ zeros n

module _ (memory : Memory) where
  -- The numbers of both functions below, from the host's memory, or by a copy from the device's, whose
  -- result is not looked at. They are read as `int64_t`, whatever their type.
  unfoldable pub host_numbers : Tensor → List ℕ
  host_numbers cu_seqlens =
      let n = numel cu_seqlens in
      let copied = memory.copies cu_seqlens.data_ (mul64 n 8) && memory.synchronizes in
      if same cu_seqlens.device.type DeviceType.cpu
      then memory.numbers DataType.int64 cu_seqlens.data_ n
      else if copied
      then memory.numbers DataType.int64 cu_seqlens.data_ n
      else zeros n

  -- `extractSeqLengths`; a vector of -1 elements throws.
  unfoldable pub extract_seq_lengths : Tensor → Outcome (List ℕ)
  unfolding host_numbers
  extract_seq_lengths cu_seqlens =
      if numel cu_seqlens == 0
      then fail Fault.thrown
      else ok (differences memory (host_numbers cu_seqlens))

  -- `cumSeqLengths`.
  unfoldable pub cum_seq_lengths : Tensor → Outcome (List ℕ)
  unfolding host_numbers
  cum_seq_lengths cu_seqlens =
      if numel cu_seqlens == 0
      then fail Fault.out_of_range
      else ok (without_first memory (host_numbers cu_seqlens))

abbrev pub mask_dim : ℕ
mask_dim = 2048

-- The loops of `makeCausalMask` over the elements of `host_mask`, which is 0 at first, for a mask of
-- any size.
unfoldable pub mask_row : (dim r : ℕ) → (ℕ → ℕ) → ℕ → ℕ
unfolding for_from
mask_row dim r mask =
    for_from dim 0 (λ c m. write_at m (r * dim + c) (if ltb r c then 1 else 0)) mask

unfoldable pub triangle : ℕ → ℕ → ℕ
unfolding for_from mask_row
triangle dim = for_from dim 0 (mask_row dim) (λ _. 0)

-- The mask that is copied to the device.
unfoldable pub causal_mask : ℕ → ℕ
unfolding triangle
causal_mask = triangle mask_dim

-- A descriptor: its metadata, and the address of its data.
pub record Descriptor : Type 0 where
  pub kept : TensorMeta
  pub address : ℕ

pub data Layout : Type 0 where
  tnd bnsd : Layout

-- The arguments that depend on the call's.
pub record FiaCall : Type 0 where
  pub query : Descriptor
  pub key : Descriptor
  pub value : Descriptor
  pub is_masked : Bool
  pub seq_q : Option (List ℕ)
  pub seq_kv : List ℕ
  pub block_table : Option Descriptor
  pub num_heads : ℕ
  pub pre_tokens : ℕ
  pub next_tokens : ℕ
  pub layout : Layout
  pub num_kv_heads : ℕ
  pub sparse_mode : ℕ
  pub block_size : ℕ
  pub output : Descriptor

-- What the constructor keeps, in the two cases of `paged_`.
pub data Prepared : Type 0 where
  prefill : (query output : TensorMeta) (has_mask : Bool) → Prepared
  decode : (query output block_table kv : TensorMeta) → Prepared

-- `kv_shape_`, `kv_strides_` and `kv_storage_shape_`.
unfoldable pub kv_meta : (nb bsz nkv_d : ℕ) → AclDtype → TensorMeta
kv_meta nb bsz nkv_d dtype = record {
  shape = nb ∷ bsz ∷ nkv_d ∷ [];
  strides = mul64 bsz nkv_d ∷ nkv_d ∷ 1 ∷ [];
  storage_shape = mul64 (mul64 nb bsz) nkv_d ∷ [];
  dtype = dtype;
}

-- The constructor, after that of the base class.
unfoldable pub prepare :
    (query key output : Tensor) (block_table : Option Tensor) (causal : Bool) (block_size : ℕ)
    → Outcome Prepared
unfolding kv_meta
prepare query key output none causal block_size = do
  acl_dt ← to_acl_dtype query.dtype
  q ← meta_of query false
  o ← meta_of output false
  ok (prefill q o causal)
prepare query key output (some block_table) causal block_size = do
  acl_dt ← to_acl_dtype query.dtype
  if not (positive block_size)
      then (do q ← meta_of query false; o ← meta_of output false; ok (prefill q o causal))
      else (do
        n ← size query 1
        d ← size query 2
        b ← size query 0
        table ← meta_of block_table false
        nb ← size key 0
        bsz ← size key 1
        heads ← size key 2
        width ← size key 3
        let q = meta_of_shape (b ∷ n ∷ 1 ∷ d ∷ []) acl_dt
        ok (decode q q table (kv_meta nb bsz (mul64 heads width) acl_dt)))

-- `sparse_mode`, `pre_tokens` and `next_tokens`.
unfoldable pub sparse_tokens : Bool → (wl wr : ℕ) → ℕ × ℕ × ℕ
sparse_tokens causal wl wr =
    if causal then if not (negative wl) then (4, wl, 0) else (3, all_tokens, 0) else (
      0,
      if not (negative wl) then wl else all_tokens,
      if not (negative wr) then wr else all_tokens,
    )

module _ (memory : Memory) where
  -- The lengths of the sequences, or those of one sequence of all tokens.
  abbrev pub lengths_or : Option Tensor → ℕ → Outcome (List ℕ)
  lengths_or none tokens = ok (tokens ∷ [])
  lengths_or (some cu_seqlens) tokens = cum_seq_lengths memory cu_seqlens

  abbrev pub needed : Option Tensor → Outcome Tensor
  needed none = fail Fault.aborted
  needed (some t) = ok t

  -- `block_table.value()`.
  abbrev pub table_value : Option Tensor → Outcome Tensor
  table_value none = fail Fault.thrown
  table_value (some t) = ok t

  -- `operator()`, up to the call of the library.
  unfoldable pub flash_attention_call :
      FlashAttention
      → Prepared
      → (query key value : Tensor) (cu_seqlens_q cu_seqlens_kv block_table : Option Tensor)
        (num_heads num_kv_heads : ℕ) (causal : Bool) (block_size : ℕ) (output : Tensor)
      → Outcome FiaCall
  unfolding cum_seq_lengths extract_seq_lengths sparse_tokens
  flash_attention_call op (prefill q o has_mask) query key value cu_seqlens_q cu_seqlens_kv
        block_table num_heads num_kv_heads causal block_size output =
      do
        let tokens = sparse_tokens causal op.window_left op.window_right
        t ← size query 0
        seq_q ← lengths_or cu_seqlens_q t
        seq_kv ← lengths_or cu_seqlens_kv t
        t_k ← meta_of key false
        t_v ← meta_of value false
        ok (record {
          query = record { kept = q; address = query.data_ };
          key = record { kept = t_k; address = key.data_ };
          value = record { kept = t_v; address = value.data_ };
          is_masked = has_mask;
          seq_q = some seq_q;
          seq_kv = seq_kv;
          block_table = none;
          num_heads = num_heads;
          pre_tokens = tokens.1;
          next_tokens = tokens.2;
          layout = tnd;
          num_kv_heads = num_kv_heads;
          sparse_mode = tokens.0;
          block_size = 0;
          output = record { kept = o; address = output.data_ };
        })
  flash_attention_call op (decode q o table kv) query key value cu_seqlens_q cu_seqlens_kv
        block_table num_heads num_kv_heads causal block_size output =
      do
        cu_kv ← needed cu_seqlens_kv
        seq_kv ← extract_seq_lengths memory cu_kv
        block_table_view ← table_value block_table
        ok (record {
          query = record { kept = q; address = query.data_ };
          key = record { kept = kv; address = key.data_ };
          value = record { kept = kv; address = value.data_ };
          is_masked = false;
          seq_q = none;
          seq_kv = seq_kv;
          block_table = some (record { kept = table; address = block_table_view.data_ });
          num_heads = num_heads;
          pre_tokens = all_tokens;
          next_tokens = all_tokens;
          layout = bnsd;
          num_kv_heads = num_kv_heads;
          sparse_mode = 0;
          block_size = block_size;
          output = record { kept = o; address = output.data_ };
        })
