-- ===== src/Ascend/PagedAttentionAtb/Laws.antt =====
-- The tensors that the library gets, against `ToAtbTensor` of the call's tensors.
use infini_ops.Prelude.{
  ℕ, ◌≡◌, refl, sym, ap, subst, ◌∙◌, Bool, List, [], ◌∷◌, ◌++◌, Option, ok, ok-inj, bind_ok, ◌>>=◌,
  mul64,
}
use infini_ops.DataType.{data_type_eq, size_of}
use infini_ops.Tensor.{Tensor, element_size, product_from}
use infini_ops.Base.PagedAttention.{PagedAttention, paged_attention}
use infini_ops.Base.PagedAttention.Layout.{
  Layout, paged_attention-Layout, SameTypes, paged_attention-SameTypes,
}
use infini_ops.Ascend.AclDtype.{to_acl_dtype}
use infini_ops.Ascend.PagedAttentionAtb.{
  AtbTensor, PagedAttentionAtb, VariantPack, HostCopy, to_atb_tensor, to_atb_tensor_of,
  paged_attention_atb, build_variant_pack, paged_attention_atb_call, host_numbers_of,
}
use infini_ops.Ascend.PagedAttentionAtb.Descriptors.{
  at_address, with_host, product-two, product-one, to_atb_tensor-to_atb_tensor_of, flat_tensor,
  cache_tensor, hosted_tensor, told_size, told_query, told_cache,
}
use infini_ops.Ascend.PagedAttentionAtb.Fields.{
  first_size, second_size, Made, paged_attention_atb-Made,
}

module _ (max_dim : ℕ) where
  -- What each tensor of a pack was made of.
  record Packed (p : PagedAttentionAtb) (pack : VariantPack) (b n d nb bs nkv : ℕ)
      (q k v table lens out table_host lens_host : ℕ) : Type 0 where
    query_told : told_query max_dim p b n d q ≡ ok pack.query
    key_told : told_cache max_dim p nb bs nkv d k ≡ ok pack.key_cache
    value_told : told_cache max_dim p nb bs nkv d v ≡ ok pack.value_cache
    x_table : AtbTensor
    table_told :
        to_atb_tensor_of max_dim p.block_table_shape p.bt_dt table p.bt_host_bytes ≡ ok x_table
    table_hosted : pack.block_table ≡ with_host table_host x_table
    x_lens : AtbTensor
    lens_told :
        to_atb_tensor_of max_dim p.context_lens_shape p.sl_dt lens p.sl_host_bytes ≡ ok x_lens
    lens_hosted : pack.context_lens ≡ with_host lens_host x_lens
    output_told : told_query max_dim p b n d out ≡ ok pack.output

  build_variant_pack-Packed :
      (p : PagedAttentionAtb) (b n d nb bs nkv q k v table lens out table_host lens_host : ℕ)
      (pack : VariantPack)
      → p.query_tnd_shape ≡ b ∷ n ∷ d ∷ []
      → p.output_tnd_shape ≡ b ∷ n ∷ d ∷ []
      → p.kv_cache_shape ≡ nb ∷ bs ∷ nkv ∷ d ∷ []
      → build_variant_pack max_dim p q k v table lens out table_host lens_host ≡ ok pack
      → Packed p pack b n d nb bs nkv q k v table lens out table_host lens_host
  unfolding build_variant_pack
  build_variant_pack-Packed p b n d nb bs nkv q k v table lens out table_host lens_host pack
        kept_query kept_output kept_cache h =
      let (x_q, query_told, h1) =
        bind_ok (told_query max_dim p b n d q) _ (rw (kept_query, kept_output, kept_cache) at h) in
      let (x_k, key_told, h2) = bind_ok (told_cache max_dim p nb bs nkv d k) _ h1 in
      let (x_v, value_told, h3) = bind_ok (told_cache max_dim p nb bs nkv d v) _ h2 in
      let (x_table, table_told, h4) =
        bind_ok (to_atb_tensor_of max_dim p.block_table_shape p.bt_dt table p.bt_host_bytes) _ h3 in
      let (x_lens, lens_told, h5) =
        bind_ok (to_atb_tensor_of max_dim p.context_lens_shape p.sl_dt lens p.sl_host_bytes) _ h4 in
      let (x_out, output_told, h6) = bind_ok (told_query max_dim p b n d out) _ h5 in
      subst
        (λ (v' : VariantPack).
          Packed p v' b n d nb bs nkv q k v table lens out table_host lens_host)
        (ok-inj h6)
        (record {
          query_told = query_told;
          key_told = key_told;
          value_told = value_told;
          x_table = x_table;
          table_told = table_told;
          table_hosted = refl;
          x_lens = x_lens;
          lens_told = lens_told;
          lens_hosted = refl;
          output_told = output_told;
        })

  -- The tensors without a copy on the host.
  plain_tensors :
      (query key_cache value_cache seq_lens block_table output : Tensor) (base : PagedAttention)
      (p : PagedAttentionAtb) (pack : VariantPack)
      (kept : Made p base query key_cache seq_lens block_table)
      (q k v table lens out table_host lens_host : ℕ)
      → Layout base query key_cache value_cache seq_lens block_table output
      → SameTypes query key_cache value_cache output
      → Packed p pack base.batch_size base.num_heads base.head_size kept.num_blocks kept.bs
          base.num_kv_heads q k v table lens out table_host lens_host
      → (to_atb_tensor max_dim (at_address q query) ≡ ok pack.query)
        × (to_atb_tensor max_dim (at_address k key_cache) ≡ ok pack.key_cache)
        × (to_atb_tensor max_dim (at_address v value_cache) ≡ ok pack.value_cache)
        × (to_atb_tensor max_dim (at_address out output) ≡ ok pack.output)
  unfolding element_size
  plain_tensors query key_cache value_cache seq_lens block_table output base p pack kept q k v table
        lens out table_host lens_host shaped typed told =
      let cache_shape : key_cache.shape
          ≡ kept.num_blocks ∷ kept.bs ∷ base.num_kv_heads ∷ base.head_size ∷ [] =
        rw
          (
            first_size key_cache _ _ _ shaped.key_shape kept.found_blocks,
            second_size key_cache _ _ _ _ shaped.key_shape kept.found_bs,
          )
          shaped.key_shape in
      (
        flat_tensor max_dim p query _ _ _ q _ shaped.query_shape kept.query_type kept.query_bytes
            told.query_told,
        cache_tensor max_dim p key_cache _ _ _ _ k _ cache_shape
            (ap to_acl_dtype typed.key_dtype ∙ kept.query_type)
            (ap size_of typed.key_dtype ∙ kept.query_bytes) told.key_told,
        cache_tensor max_dim p value_cache _ _ _ _ v _ (shaped.value_shape ∙ cache_shape)
            (ap to_acl_dtype typed.value_dtype ∙ kept.query_type)
            (ap size_of typed.value_dtype ∙ kept.query_bytes) told.value_told,
        flat_tensor max_dim p output _ _ _ out _ (shaped.output_shape ∙ shaped.query_shape)
            (ap to_acl_dtype typed.output_dtype ∙ kept.query_type)
            (ap size_of typed.output_dtype ∙ kept.query_bytes) told.output_told,
      )

  -- The tensors with one.
  counted_tensors :
      (query key_cache value_cache seq_lens block_table output : Tensor) (base : PagedAttention)
      (p : PagedAttentionAtb) (pack : VariantPack)
      (kept : Made p base query key_cache seq_lens block_table)
      (q k v table lens out table_host lens_host : ℕ)
      → Layout base query key_cache value_cache seq_lens block_table output
      → (told : Packed p pack base.batch_size base.num_heads base.head_size kept.num_blocks kept.bs
          base.num_kv_heads q k v table lens out table_host lens_host)
      → (to_atb_tensor max_dim (at_address table block_table) ≡ ok told.x_table)
        × (to_atb_tensor max_dim (at_address lens seq_lens) ≡ ok told.x_lens)
        × (p.bt_host_bytes ≡ pack.block_table.data_size)
        × (p.sl_host_bytes ≡ pack.context_lens.data_size)
  counted_tensors query key_cache value_cache seq_lens block_table output base p pack kept q k v
        table lens out table_host lens_host shaped told =
      let table_shape : block_table.shape ≡ base.batch_size ∷ kept.max_blocks ∷ [] =
        rw (second_size block_table _ _ _ _ shaped.block_table_shape kept.found_max)
          shaped.block_table_shape in
      (
        to_atb_tensor-to_atb_tensor_of max_dim block_table p.block_table_shape p.bt_dt
            p.bt_elem_size p.bt_host_bytes table told.x_table (table_shape ∙ sym kept.kept_table)
            kept.table_type kept.table_bytes
            (ap (λ s. mul64 (product_from 1 s) p.bt_elem_size) kept.kept_table
              ∙ ap (λ e. mul64 e p.bt_elem_size) (product-two base.batch_size kept.max_blocks)
              ∙ sym kept.table_size)
            told.table_told,
        to_atb_tensor-to_atb_tensor_of max_dim seq_lens p.context_lens_shape p.sl_dt p.sl_elem_size
            p.sl_host_bytes lens told.x_lens (shaped.seq_lens_shape ∙ sym kept.kept_lens)
            kept.lens_type kept.lens_bytes
            (ap (λ s. mul64 (product_from 1 s) p.sl_elem_size) kept.kept_lens
              ∙ product-one base.batch_size p.sl_elem_size
              ∙ sym kept.lens_size)
            told.lens_told,
        told_size max_dim _ _ _ _ told.x_table told.table_told
            ∙ sym (ap (λ (x : AtbTensor). x.data_size) told.table_hosted),
        told_size max_dim _ _ _ _ told.x_lens told.lens_told
            ∙ sym (ap (λ (x : AtbTensor). x.data_size) told.lens_hosted),
      )

  -- For a call that passes other addresses with the shapes and types that the constructor accepted, the
  -- library gets for each tensor what `ToAtbTensor` gives for it, the block table and the lengths with
  -- the caller's copy on the host, or else with a buffer of the operator to which all their bytes are
  -- copied.
  pub paged_attention_atb_call-tensors :
      (query key_cache value_cache seq_lens block_table : Tensor)
      (num_heads num_kv_heads head_size block_size : ℕ) (output : Tensor)
      (seq_lens_host block_table_host : Option Tensor) (base : PagedAttention)
      (bt_buffer sl_buffer : ℕ) (creates : Bool) (p : PagedAttentionAtb) (q k v lens table out : ℕ)
      (copies : List HostCopy) (pack : VariantPack)
      → paged_attention query key_cache value_cache seq_lens block_table num_heads num_kv_heads
          head_size block_size output seq_lens_host block_table_host
        ≡ ok base
      → paged_attention_atb bt_buffer sl_buffer creates base query key_cache seq_lens block_table
          seq_lens_host block_table_host
        ≡ ok p
      → paged_attention_atb_call max_dim p
          (at_address q query)
          (at_address k key_cache)
          (at_address v value_cache)
          (at_address lens seq_lens)
          (at_address table block_table)
          (at_address out output)
          seq_lens_host
          block_table_host
        ≡ ok (copies, pack)
      → (let table_copy =
            host_numbers_of block_table_host
              (at_address table block_table)
              p.bt_host
              pack.block_table.data_size in
          let lens_copy =
            host_numbers_of seq_lens_host
              (at_address lens seq_lens)
              p.sl_host
              pack.context_lens.data_size in
          (to_atb_tensor max_dim (at_address q query) ≡ ok pack.query)
          × (to_atb_tensor max_dim (at_address k key_cache) ≡ ok pack.key_cache)
          × (to_atb_tensor max_dim (at_address v value_cache) ≡ ok pack.value_cache)
          × ((to_atb_tensor max_dim (at_address table block_table) >>= λ x.
                ok (with_host (table_copy.0) x))
              ≡ ok pack.block_table)
          × ((to_atb_tensor max_dim (at_address lens seq_lens) >>= λ x.
                ok (with_host (lens_copy.0) x))
              ≡ ok pack.context_lens)
          × (to_atb_tensor max_dim (at_address out output) ≡ ok pack.output)
          × (copies ≡ table_copy.1 ++ lens_copy.1))
  unfolding paged_attention_atb_call
  paged_attention_atb_call-tensors query key_cache value_cache seq_lens block_table num_heads
        num_kv_heads head_size block_size output seq_lens_host block_table_host base bt_buffer
        sl_buffer creates p q k v lens table out copies pack accepted made called =
      let shaped =
        paged_attention-Layout query key_cache value_cache seq_lens block_table num_heads
          num_kv_heads head_size block_size output seq_lens_host block_table_host base accepted in
      let typed =
        paged_attention-SameTypes query key_cache value_cache seq_lens block_table num_heads
          num_kv_heads head_size block_size output seq_lens_host block_table_host base accepted in
      let kept =
        paged_attention_atb-Made bt_buffer sl_buffer creates base query key_cache seq_lens
          block_table seq_lens_host block_table_host p made in
      let table_from =
        host_numbers_of block_table_host (at_address table block_table) p.bt_host p.bt_host_bytes in
      let lens_from =
        host_numbers_of seq_lens_host (at_address lens seq_lens) p.sl_host p.sl_host_bytes in
      let (pk, packed, h) =
        bind_ok (build_variant_pack max_dim p q k v table lens out (table_from.0) (lens_from.0)) _
          called in
      let same_pack : pk ≡ pack = ap (λ (r : List HostCopy × VariantPack). r.1) (ok-inj h) in
      let told =
        build_variant_pack-Packed p base.batch_size base.num_heads base.head_size kept.num_blocks
          kept.bs base.num_kv_heads q k v table lens out (table_from.0) (lens_from.0) pack
          kept.kept_query kept.kept_output kept.kept_cache (packed ∙ ap ok same_pack) in
      let plain =
        plain_tensors query key_cache value_cache seq_lens block_table output base p pack kept q k v
          table lens out (table_from.0) (lens_from.0) shaped typed told in
      let counted =
        counted_tensors query key_cache value_cache seq_lens block_table output base p pack kept q k
          v table lens out (table_from.0) (lens_from.0) shaped told in
      let table_copy : (n : ℕ) → ℕ × List HostCopy =
        host_numbers_of block_table_host (at_address table block_table) p.bt_host in
      let lens_copy : (n : ℕ) → ℕ × List HostCopy =
        host_numbers_of seq_lens_host (at_address lens seq_lens) p.sl_host in
      (
        plain.0,
        plain.1,
        plain.2,
        hosted_tensor max_dim (at_address table block_table) told.x_table pack.block_table _ _
            (counted.0) told.table_hosted (λ i. (table_copy (counted.2 i)).0),
        hosted_tensor max_dim (at_address lens seq_lens) told.x_lens pack.context_lens _ _
            (counted.1) told.lens_hosted (λ i. (lens_copy (counted.3 i)).0),
        plain.3,
        sym (ap (λ (r : List HostCopy × VariantPack). r.0) (ok-inj h))
            ∙ (λ i. (table_copy (counted.2 i)).1 ++ (lens_copy (counted.3 i)).1),
      )
