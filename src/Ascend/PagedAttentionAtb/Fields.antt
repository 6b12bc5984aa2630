-- ===== src/Ascend/PagedAttentionAtb/Fields.antt =====
-- What the constructor of the operator keeps.
use infini_ops.Prelude.{
  ℕ, ◌≡◌, refl, sym, subst, Bool, List, [], ◌∷◌, Option, ok, ok-inj, bind_ok, assert, mul64,
}
use infini_ops.DataType.{data_type_eq}
use infini_ops.Tensor.{Tensor, size, element_size, get_effective_index}
use infini_ops.Base.Checks.{is_given}
use infini_ops.Base.Checks.Laws.{then_ok}
use infini_ops.Base.PagedAttention.{PagedAttention}
use infini_ops.Ascend.AclDtype.{to_acl_dtype}
use infini_ops.Ascend.PagedAttentionAtb.{PagedAttentionAtb, paged_attention_atb, buffer_unless}

pub first_size : (t : Tensor) (a n : ℕ) (xs : List ℕ) → t.shape ≡ a ∷ xs → size t 0 ≡ ok n → n ≡ a
unfolding size get_effective_index
first_size t a n xs shaped h = ok-inj (sym (rw shaped at h))

pub second_size :
    (t : Tensor) (a b n : ℕ) (xs : List ℕ) → t.shape ≡ a ∷ b ∷ xs → size t 1 ≡ ok n → n ≡ b
unfolding size get_effective_index
second_size t a b n xs shaped h = ok-inj (sym (rw shaped at h))

-- What the constructor found out, and the fields that it kept.
pub record Made (p : PagedAttentionAtb) (base : PagedAttention)
    (query key_cache seq_lens block_table : Tensor) : Type 0 where
  pub num_blocks : ℕ
  pub bs : ℕ
  pub max_blocks : ℕ
  pub found_blocks : size key_cache 0 ≡ ok num_blocks
  pub found_bs : size key_cache 1 ≡ ok bs
  pub found_max : size block_table 1 ≡ ok max_blocks
  pub query_type : to_acl_dtype query.dtype ≡ ok p.acl_dt
  pub table_type : to_acl_dtype block_table.dtype ≡ ok p.bt_dt
  pub lens_type : to_acl_dtype seq_lens.dtype ≡ ok p.sl_dt
  pub query_bytes : element_size query ≡ ok p.elem_size
  pub table_bytes : element_size block_table ≡ ok p.bt_elem_size
  pub lens_bytes : element_size seq_lens ≡ ok p.sl_elem_size
  pub kept_query : p.query_tnd_shape ≡ base.batch_size ∷ base.num_heads ∷ base.head_size ∷ []
  pub kept_output : p.output_tnd_shape ≡ base.batch_size ∷ base.num_heads ∷ base.head_size ∷ []
  pub kept_cache : p.kv_cache_shape ≡ num_blocks ∷ bs ∷ base.num_kv_heads ∷ base.head_size ∷ []
  pub kept_table : p.block_table_shape ≡ base.batch_size ∷ max_blocks ∷ []
  pub kept_lens : p.context_lens_shape ≡ base.batch_size ∷ []
  pub table_size : p.bt_host_bytes ≡ mul64 (mul64 base.batch_size max_blocks) p.bt_elem_size
  pub lens_size : p.sl_host_bytes ≡ mul64 base.batch_size p.sl_elem_size

pub paged_attention_atb-Made :
    (bt_buffer sl_buffer : ℕ) (creates : Bool) (base : PagedAttention)
    (query key_cache seq_lens block_table : Tensor) (seq_lens_host block_table_host : Option Tensor)
    (p : PagedAttentionAtb)
    → paged_attention_atb bt_buffer sl_buffer creates base query key_cache seq_lens block_table
        seq_lens_host block_table_host
      ≡ ok p
    → Made p base query key_cache seq_lens block_table
unfolding paged_attention_atb
paged_attention_atb-Made bt sl creates base q k lens table lens_host table_host p h =
    let (num_blocks, found_blocks, h1) = bind_ok (size k 0) _ h in
    let (bs, found_bs, h2) = bind_ok (size k 1) _ h1 in
    let (max_blocks, found_max, h3) = bind_ok (size table 1) _ h2 in
    let (acl, query_type, h4) = bind_ok (to_acl_dtype q.dtype) _ h3 in
    let (bt_dt, table_type, h5) = bind_ok (to_acl_dtype table.dtype) _ h4 in
    let (sl_dt, lens_type, h6) = bind_ok (to_acl_dtype lens.dtype) _ h5 in
    let (e, query_bytes, h7) = bind_ok (element_size q) _ h6 in
    let (bt_e, table_bytes, h8) = bind_ok (element_size table) _ h7 in
    let (sl_e, lens_bytes, h9) = bind_ok (element_size lens) _ h8 in
    let (bt_host, _, h10) = bind_ok (buffer_unless (is_given table_host) bt) _ h9 in
    let (sl_host, _, h11) = bind_ok (buffer_unless (is_given lens_host) sl) _ h10 in
    let (created, h12) = then_ok (assert creates) h11 in
    subst (λ (p : PagedAttentionAtb). Made p base q k lens table) (ok-inj h12)
      (record {
        num_blocks = num_blocks;
        bs = bs;
        max_blocks = max_blocks;
        found_blocks = found_blocks;
        found_bs = found_bs;
        found_max = found_max;
        query_type = query_type;
        table_type = table_type;
        lens_type = lens_type;
        query_bytes = query_bytes;
        table_bytes = table_bytes;
        lens_bytes = lens_bytes;
        kept_query = refl;
        kept_output = refl;
        kept_cache = refl;
        kept_table = refl;
        kept_lens = refl;
        table_size = refl;
        lens_size = refl;
      })
