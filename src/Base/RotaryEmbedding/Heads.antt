-- ===== src/Base/RotaryEmbedding/Heads.antt =====
-- The number of heads of a packed and of a split layout.
use infini_ops.Prelude.{
  access, get_elem?, ℕ, ◌*◌, ◌/◌, ◌%◌, ◌<◌, ◌≤◌, ◌⊎◌, inl, inr, ◌^◌, Option, some, ok-inj, assert,
  ◌≡◌, ap, sym, ◌∙◌, List, [], ◌∷◌, ok, arith, mul64, Bool,
}
use infini_ops.Tensor.{Tensor, size, numel, get_effective_index}
use infini_ops.Base.Checks.{divide}
use infini_ops.Base.Checks.{has_dtype}
use infini_ops.Base.Checks.Laws.{then_ok}
use infini_ops.Tensor.Numel.{numel-product}
use infini_ops.Prelude.Products.{product}
use infini_ops.DataType.{int64, data_type_eq}
use infini_ops.Base.RotaryEmbedding.{
  RotaryEmbedding, heads_of, rotary_embedding, is_packed_or_split, accepts_key, signed_leb,
}

-- A quotient without signs.
divide_small : (a b : ℕ) → a < 2 ^ 63 → 0 < b → b < 2 ^ 63 → divide a b ≡ ok (a / b)
unfolding divide
divide_small a b ha hb lt = ground arith

div_product : (b h : ℕ) → 0 < b → (b * h) / b ≡ h
div_product b h pos = grind arith

-- What is left of the initialiser once the size and the number of elements are known.
heads_of-ok :
    (t : Tensor) (tokens heads head_size : ℕ)
    → size t 0 ≡ ok tokens
    → numel t ≡ (tokens * head_size) * heads
    → 0 < tokens * head_size
    → 0 < heads
    → (tokens * head_size) * heads < 2 ^ 63
    → heads_of t head_size ≡ ok heads
unfolding heads_of
heads_of-ok t tokens heads head_size first count pos some_heads small =
    let below : tokens * head_size ≤ (tokens * head_size) * heads = grind arith in
    let word : mul64 tokens head_size ≡ tokens * head_size = omega arith in
    rw (first, count, word)
      (divide_small _ _ small pos (omega arith)
        ∙ ap ok (div_product (tokens * head_size) heads pos))

-- The two layouts of a tensor of heads.
abbrev pub IsLayout : Tensor → ℕ → ℕ → ℕ → Type 0
IsLayout t tokens heads head_size =
    (t.shape ≡ tokens ∷ (heads * head_size) ∷ []) ⊎ (t.shape ≡ tokens ∷ heads ∷ head_size ∷ [])

size_first :
    (t : Tensor) (tokens : ℕ) (rest : List ℕ) → t.shape ≡ tokens ∷ rest → size t 0 ≡ ok tokens
unfolding size get_effective_index
size_first t tokens rest h = ap (λ (xs : List ℕ). access (get_elem? xs 0)) h

numel_layout :
    (t : Tensor) (tokens heads head_size : ℕ)
    → IsLayout t tokens heads head_size
    → 0 < tokens * head_size
    → 0 < heads
    → (tokens * head_size) * heads < 2 ^ 63
    → numel t ≡ (tokens * head_size) * heads
numel_layout t tokens heads head_size (inl h) pos some_heads small =
    let whole : tokens * (heads * head_size * 1) ≡ tokens * head_size * heads = grind arith in
    numel-product t
    ∙ ap (λ (xs : List ℕ). product xs % 2 ^ 64) h
    ∙ ap (λ n. n % 2 ^ 64) whole
    ∙ omega arith
numel_layout t tokens heads head_size (inr h) pos some_heads small =
    let whole : tokens * (heads * (head_size * 1)) ≡ tokens * head_size * heads = grind arith in
    numel-product t
    ∙ ap (λ (xs : List ℕ). product xs % 2 ^ 64) h
    ∙ ap (λ n. n % 2 ^ 64) whole
    ∙ omega arith

layout_first :
    (t : Tensor) (tokens heads head_size : ℕ)
    → IsLayout t tokens heads head_size
    → size t 0 ≡ ok tokens
layout_first t tokens heads head_size (inl h) = size_first t tokens (heads * head_size ∷ []) h
layout_first t tokens heads head_size (inr h) = size_first t tokens (heads ∷ head_size ∷ []) h

-- A tensor of so many tokens and heads, with fewer than 2 ^ 63 elements and not empty.
pub record HasHeads (t : Tensor) (tokens heads head_size : ℕ) : Type 0 where
  pub layout : IsLayout t tokens heads head_size
  pub elements : 0 < tokens * head_size
  pub some_heads : 0 < heads
  pub small : (tokens * head_size) * heads < 2 ^ 63

heads_of-heads :
    (t : Tensor) (tokens heads head_size : ℕ)
    → HasHeads t tokens heads head_size
    → heads_of t head_size ≡ ok heads
heads_of-heads t tokens heads head_size h =
    heads_of-ok t tokens heads head_size (layout_first t tokens heads head_size h.layout)
      (numel_layout t tokens heads head_size h.layout h.elements h.some_heads h.small) h.elements
      h.some_heads h.small

-- For a query and a key of so many heads, packed in two dimensions or split into three, each with
-- elements and fewer than 2 ^ 63 of them, an operator that is accepted has the numbers of tokens and
-- of heads of the two.
pub rotary_embedding-heads :
    (positions query key : Tensor) (head_size : ℕ) (cos_sin_cache : Tensor) (is_neox_style : Bool)
    (rotary_dim : ℕ) (query_out key_out : Option Tensor) (pre_gathered : Bool)
    (tokens heads key_tokens kv_heads : ℕ) (op : RotaryEmbedding)
    → HasHeads query tokens heads head_size
    → HasHeads key key_tokens kv_heads head_size
    → rotary_embedding positions query
        (some key)
        head_size
        cos_sin_cache
        is_neox_style
        rotary_dim
        query_out
        key_out
        pre_gathered
      ≡ ok op
    → (op.num_tokens ≡ tokens) × (op.num_heads ≡ heads) × (op.num_kv_heads ≡ kv_heads)
unfolding rotary_embedding
rotary_embedding-heads positions query key head_size cos_sin_cache is_neox_style rotary_dim
      query_out key_out pre_gathered tokens heads key_tokens kv_heads op q k h =
    let h1 =
      rw
        (
          layout_first query tokens heads head_size q.layout,
          heads_of-heads query tokens heads head_size q,
          heads_of-heads key key_tokens kv_heads head_size k,
        )
        at h in
    let (a, h2) = then_ok (has_dtype positions int64) h1 in
    let (b, h3) = then_ok (is_packed_or_split query) h2 in
    let (c, h4) = then_ok (accepts_key (some key)) h3 in
    let (d, h5) = then_ok (assert (signed_leb rotary_dim head_size)) h4 in
    let made = ok-inj h5 in
    (
      sym (ap (λ (o : RotaryEmbedding). o.num_tokens) made),
      sym (ap (λ (o : RotaryEmbedding). o.num_heads) made),
      sym (ap (λ (o : RotaryEmbedding). o.num_kv_heads) made),
    )
