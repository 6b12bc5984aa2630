-- ===== src/Ascend/FlashAttention/Laws.antt =====
-- What the library is told about masks, windows, sequences and the paged cache.
use infini_ops.Prelude.{
  ℕ, ◌+◌, ◌*◌, ◌<◌, ◌≤◌, ◌^◌, ◌%◌, ◌≡◌, ◌↔◌, refl, sym, ap, subst, ◌∙◌, arith, Bool, true, false,
  [], ◌∷◌, Option, none, some, ◌==◌, ltb, if◌then◌else◌, length, ok, ok-inj, bind_ok, ◌>>=◌,
  negative, positive, mul64, Bool-cases, inl, inr, lt→ltb,
}
use infini_ops.Prelude.Equality.{same}
use infini_ops.Prelude.Products.{suffixes}
use infini_ops.Device.{DeviceType, device_type_eq}
use infini_ops.DataType.{DataType, data_type_eq}
use infini_ops.Tensor.{Tensor, ndim, numel, size}
use infini_ops.Tensor.Laws.{dot}
use infini_ops.Base.FlashAttention.{FlashAttention}
use infini_ops.Cpu.MatrixLoops.Nest.{nest-entry}
use infini_ops.Cpu.MatrixLoops.RowMajor.{parts_unique}
use infini_ops.Ascend.AclDtype.{AclDtype, to_acl_dtype}
use infini_ops.Ascend.AclTensor.{meta_of}
use infini_ops.Ascend.Fia.{
  Memory, without_first, resolve_sparse_mode, read_int_tensor, fetch, create_cum_seq_lengths,
}
use infini_ops.Ascend.FlashAttention.{
  host_numbers, cum_seq_lengths, extract_seq_lengths, Layout, tnd, bnsd, mask_dim, mask_row,
  triangle, causal_mask, FiaCall, Prepared, prefill, decode, kv_meta, prepare, sparse_tokens,
  flash_attention_call, table_value, lengths_or, needed,
}

triangle-entry :
    (dim r c : ℕ) → r < dim → c < dim → triangle dim (r * dim + c) ≡ (if ltb r c then 1 else 0)
unfolding triangle mask_row
triangle-entry dim r c hr hc =
    nest-entry (λ _ i j. i * dim + j) (λ _ i j _. if ltb i j then 1 else 0) dim dim 1
      (λ b i j b' i' j' h h' e.
        let (same_i, same_j) = parts_unique dim i j i' j' h.2 h'.2 e in
        (omega (arith, h.0, h'.0), same_i, same_j))
      0 r c (omega arith, hr, hc) (λ _. 0)

-- The mask has a 1 above the diagonal, and 0 on it and below.
causal_mask-entry :
    (r c : ℕ)
    → r < mask_dim
    → c < mask_dim
    → causal_mask (r * mask_dim + c) ≡ (if ltb r c then 1 else 0)
unfolding causal_mask
causal_mask-entry r c hr hc = triangle-entry mask_dim r c hr hc

-- The tokens are those of the shared `ResolveSparseMode`.
sparse_tokens-resolve_sparse_mode :
    (causal : Bool) (wl wr : ℕ)
    → (let mode = resolve_sparse_mode causal wl wr in
        sparse_tokens causal wl wr ≡ (mode.sparse_mode, mode.pre_tokens, mode.next_tokens))
unfolding sparse_tokens resolve_sparse_mode
sparse_tokens-resolve_sparse_mode true wl wr = elim (Bool-cases (negative wl)) [
  | inl e ↦ rw e refl
  | inr e ↦ rw e refl
]
sparse_tokens-resolve_sparse_mode false wl wr = refl

-- The mask that an operator made for such calls has.
abbrev HasMask : Bool → Prepared → Type 0
HasMask causal (prefill q o masked) = masked ≡ causal
HasMask causal (decode q o table kv) = Unit {0}

sparse_tokens-masked : (causal : Bool) (wl wr : ℕ) → causal ≡ ltb 1 ((sparse_tokens causal wl wr).0)
unfolding sparse_tokens
sparse_tokens-masked true wl wr = elim (Bool-cases (negative wl)) [
  | inl e ↦ rw e refl
  | inr e ↦ rw e refl
]
sparse_tokens-masked false wl wr = refl

prefill_mask :
    (query output : Tensor) (causal : Bool) (p : Prepared)
    → (meta_of query false >>= λ q. meta_of output false >>= λ o. ok (prefill q o causal)) ≡ ok p
    → HasMask causal p
prefill_mask query output causal p h =
    let (q, _, h1) = bind_ok (meta_of query false) _ h in
    let (o, _, h2) = bind_ok (meta_of output false) _ h1 in subst (HasMask causal) (ok-inj h2) refl

bnsd_tnd : ◌≡◌ {A = Layout} bnsd tnd → ⊥
bnsd_tnd e = cc

prepare-mask :
    (query key output : Tensor) (block_table : Option Tensor) (causal : Bool) (block_size : ℕ)
    (p : Prepared)
    → prepare query key output block_table causal block_size ≡ ok p
    → HasMask causal p
unfolding prepare
prepare-mask query key output none causal block_size p h =
    let (_, _, h1) = bind_ok (to_acl_dtype query.dtype) _ h in prefill_mask query output causal p h1
prepare-mask query key output (some block_table) causal block_size p h =
    let (acl, _, h1) = bind_ok (to_acl_dtype query.dtype) _ h in
    elim (Bool-cases (positive block_size)) [
      | inr plain ↦ prefill_mask query output causal p (rw plain at h1)
      | inl paged ↦
          let (n, _, h2) = bind_ok (size query 1) _ (rw paged at h1) in
          let (d, _, h3) = bind_ok (size query 2) _ h2 in
          let (b, _, h4) = bind_ok (size query 0) _ h3 in
          let (table, _, h5) = bind_ok (meta_of block_table false) _ h4 in
          let (nb, _, h6) = bind_ok (size key 0) _ h5 in
          let (bsz, _, h7) = bind_ok (size key 1) _ h6 in
          let (heads, _, h8) = bind_ok (size key 2) _ h7 in
          let (width, _, h9) = bind_ok (size key 3) _ h8 in subst (HasMask causal) (ok-inj h9) tt
    ]

-- An operator that was made for a call gives the library a mask exactly if its sparse mode is 2 or more,
-- and for a prefill the mode and the numbers of tokens are those of the shared function.
pub flash_attention_call-masked :
    (memory : Memory) (op : FlashAttention) (p : Prepared) (query key value : Tensor)
    (cu_seqlens_q cu_seqlens_kv block_table : Option Tensor) (num_heads num_kv_heads : ℕ)
    (causal : Bool) (block_size : ℕ) (output : Tensor) (call : FiaCall)
    → prepare query key output block_table causal block_size ≡ ok p
    → flash_attention_call memory op p query key value cu_seqlens_q cu_seqlens_kv block_table
        num_heads num_kv_heads causal block_size output
      ≡ ok call
    → (call.is_masked ≡ ltb 1 call.sparse_mode)
      × (call.layout ≡ tnd
          → (let mode = resolve_sparse_mode causal op.window_left op.window_right in
              (call.sparse_mode ≡ mode.sparse_mode)
              × (call.pre_tokens ≡ mode.pre_tokens)
              × (call.next_tokens ≡ mode.next_tokens)))
unfolding flash_attention_call
flash_attention_call-masked memory op (prefill q o masked) query key value cu_seqlens_q
      cu_seqlens_kv block_table num_heads num_kv_heads causal block_size output call made called =
    let made_for =
      prepare-mask query key output block_table causal block_size (prefill q o masked) made in
    let (t, _, h1) = bind_ok (size query 0) _ called in
    let (seq_q, _, h2) = bind_ok (lengths_or memory cu_seqlens_q t) _ h1 in
    let (seq_kv, _, h3) = bind_ok (lengths_or memory cu_seqlens_kv t) _ h2 in
    let (t_k, _, h4) = bind_ok (meta_of key false) _ h3 in
    let (t_v, _, h5) = bind_ok (meta_of value false) _ h4 in
    let same_call = ok-inj h5 in
    let tokens = sparse_tokens-resolve_sparse_mode causal op.window_left op.window_right in
    (
      subst (λ (c : FiaCall). c.is_masked ≡ ltb 1 c.sparse_mode) same_call
          (made_for ∙ sparse_tokens-masked causal op.window_left op.window_right),
      λ _.
          subst
            (λ (c : FiaCall).
              let mode = resolve_sparse_mode causal op.window_left op.window_right in
              (c.sparse_mode ≡ mode.sparse_mode)
              × (c.pre_tokens ≡ mode.pre_tokens)
              × (c.next_tokens ≡ mode.next_tokens))
            same_call (λ i. (tokens i).0, λ i. (tokens i).1, λ i. (tokens i).2),
    )
flash_attention_call-masked memory op (decode q o table kv) query key value cu_seqlens_q
      cu_seqlens_kv block_table num_heads num_kv_heads causal block_size output call made called =
    let (cu, _, h1) = bind_ok (needed memory cu_seqlens_kv) _ called in
    let (seq_kv, _, h2) = bind_ok (extract_seq_lengths memory cu) _ h1 in
    let (view, _, h3) = bind_ok (table_value memory block_table) _ h2 in
    let same_call = ok-inj h3 in
    (
      subst (λ (c : FiaCall). c.is_masked ≡ ltb 1 c.sparse_mode) same_call refl,
      λ packed. absurd (bnsd_tnd (ap (λ (c : FiaCall). c.layout) same_call ∙ packed)),
    )

-- For a vector on the host of at least two numbers: the ends of the sequences are those that the shared
-- function reads if the numbers have 64 bits; if they have 32, which the constructor of the base class
-- accepts too, they are read as 64-bit numbers all the same, and are the right ones only where memory
-- happens to hold the same numbers in both widths.
pub cum_seq_lengths-widths :
    (memory : Memory) (cu_seqlens : Tensor)
    → cu_seqlens.device.type ≡ DeviceType.cpu
    → length cu_seqlens.shape ≡ 1
    → 0 < numel cu_seqlens
    → ((dtype : DataType) → 1 < length (memory.numbers dtype cu_seqlens.data_ (numel cu_seqlens)))
    → (cu_seqlens.dtype ≡ DataType.int64
        → cum_seq_lengths memory cu_seqlens ≡ create_cum_seq_lengths memory cu_seqlens)
      × (cu_seqlens.dtype ≡ DataType.int32
          → (cum_seq_lengths memory cu_seqlens ≡ create_cum_seq_lengths memory cu_seqlens) ↔ (
              without_first memory
                (memory.numbers DataType.int64 cu_seqlens.data_ (numel cu_seqlens))
              ≡ without_first memory
                  (memory.numbers DataType.int32 cu_seqlens.data_ (numel cu_seqlens))))
unfolding cum_seq_lengths host_numbers create_cum_seq_lengths read_int_tensor fetch numel ndim
cum_seq_lengths-widths memory t host one some_numbers many =
    let filled : (numel t == 0) ≡ false = ground arith in
    let dims : (length t.shape == 1) ≡ true = ground arith in
    let on_host : same t.device.type DeviceType.cpu ≡ true = rw host refl in
    (
      λ wide.
          let long = lt→ltb 1 _ (many DataType.int64) in
          rw (filled, on_host, dims, wide, long) refl,
      λ narrow.
          let long = lt→ltb 1 _ (many DataType.int32) in
          rw (filled, on_host, dims, narrow, long) (λ e. ok-inj e, λ e. ap ok e),
    )

-- The view of a row-major paged cache with the heads and their elements in one dimension has each
-- element where the cache has it.
pub kv_meta-place :
    (nb bsz heads width b s h d : ℕ) (dtype : AclDtype)
    → bsz * (heads * width) < 2 ^ 64
    → 0 < bsz
    → dot (b ∷ s ∷ (h * width + d) ∷ []) (kv_meta nb bsz (mul64 heads width) dtype).strides
      ≡ dot (b ∷ s ∷ h ∷ d ∷ []) (suffixes (nb ∷ bsz ∷ heads ∷ width ∷ []))
unfolding kv_meta
kv_meta-place nb bsz heads width b s h d dtype small some_slots =
    let p : ℕ = heads * width in
    let below : p ≤ bsz * p = grind arith in
    let plane : mul64 heads width ≡ p = omega arith in
    let slab : mul64 bsz (mul64 heads width) ≡ bsz * p =
      ap (λ n. (bsz * n) % 2 ^ 64) plane ∙ omega arith in
    let row : width * 1 ≡ width = omega arith in
    (λ i. b * slab i + (s * plane i + ((h * width + d) * 1 + 0)))
    ∙ omega arith
    ∙ sym (λ i. b * (bsz * (heads * row i)) + (s * (heads * row i) + (h * row i + (d * 1 + 0))))
