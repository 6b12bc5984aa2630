-- ===== src/Ascend/CacheViews/Laws.antt =====
-- Where the views find a token's slot.
use infini_ops.Prelude.{
  false, access, get_elem?, ℕ, ◌+◌, ◌*◌, ◌%◌, ◌<◌, ◌≤◌, ◌^◌, ◌≡◌, sym, ◌∙◌, ap, arith, List, [],
  ◌∷◌, ok, ok-inj, bind_ok, mul64,
}
use infini_ops.Prelude.Products.{suffixes}
use infini_ops.Tensor.{Tensor, size, stride, element_size}
use infini_ops.Tensor.Contiguous.{stride-eq}
use infini_ops.Tensor.Laws.{dot}
use infini_ops.Base.ReshapeAndCache.{ReshapeAndCache}
use infini_ops.Ascend.AclDtype.{AclDtype, to_acl_dtype}
use infini_ops.Ascend.AclTensor.{meta_of, meta_of_shape}
use infini_ops.Ascend.AclTensor.Storage.{contiguous-suffixes}
use infini_ops.Ascend.CacheViews.{CacheViews, cache_views}

-- The strides of the flattened view.
view_strides :
    (slots heads size : ℕ) (dtype : AclDtype)
    → heads * size < 2 ^ 64
    → 0 < heads
    → (meta_of_shape (slots ∷ heads ∷ size ∷ []) dtype).strides ≡ heads * size ∷ size ∷ 1 ∷ []
unfolding meta_of_shape
view_strides slots heads size dtype small some_heads =
    let below : size ≤ heads * size = grind arith in
    let outer : (heads * (size * 1)) % 2 ^ 64 ≡ heads * size = omega arith in
    let middle : (size * 1) % 2 ^ 64 ≡ size = omega arith in
    ap (λ (r : List ℕ × ℕ). r.0) (contiguous-suffixes (slots ∷ heads ∷ size ∷ []))
    ∙ (λ i. outer i ∷ middle i ∷ 1 ∷ [])

slot_offset :
    (kv nb bs heads size block within head element : ℕ)
    → dot (kv ∷ block ∷ within ∷ head ∷ element ∷ []) (suffixes (2 ∷ nb ∷ bs ∷ heads ∷ size ∷ []))
      ≡ kv * (nb * (bs * (heads * size)))
        + dot ((block * bs + within) ∷ head ∷ element ∷ []) (heads * size ∷ size ∷ 1 ∷ [])
slot_offset kv nb bs heads size block within head element = grind arith

plane_one : (nb bs heads size : ℕ) → nb * (bs * (heads * (size * 1))) ≡ nb * (bs * (heads * size))
plane_one nb bs heads size = ap (λ (n : ℕ). nb * (bs * (heads * n))) (omega arith)

distribute : (kv p d b : ℕ) → (kv * p + d) * b ≡ kv * (p * b) + d * b
distribute kv p d b = grind arith

-- For a row-major cache of keys and values whose last two dimensions are those of the operator, not
-- empty, and together with the element size below 2 ^ 64: the byte offset of an element of a block's
-- slot in the cache is the offset of the key or value view plus that of the token's slot in the view,
-- whose number is the block's times the block size plus the place in the block.
pub cache_views-slot :
    (op : ReshapeAndCache) (key value kv_cache slot_mapping kv_cache_out : Tensor) (v : CacheViews)
    (nb bs bytes : ℕ)
    → 0 < op.num_kv_heads
    → op.num_kv_heads * op.head_size < 2 ^ 64
    → nb * (bs * (op.num_kv_heads * op.head_size)) * bytes < 2 ^ 64
    → kv_cache_out.strides ≡ suffixes (2 ∷ nb ∷ bs ∷ op.num_kv_heads ∷ op.head_size ∷ [])
    → element_size kv_cache_out ≡ ok bytes
    → cache_views op key value kv_cache slot_mapping kv_cache_out ≡ ok v
    → (kv block within head element : ℕ)
    → dot (kv ∷ block ∷ within ∷ head ∷ element ∷ []) kv_cache_out.strides * bytes
      ≡ kv * v.v_offset_bytes
        + dot ((block * bs + within) ∷ head ∷ element ∷ []) v.view.strides * bytes
unfolding cache_views
cache_views-slot op key value kv_cache slot_mapping kv_cache_out v nb bs bytes some_heads small
      whole strides typed h kv block within head element =
    let (k, e1, h1) = bind_ok (meta_of key false) _ h in
    let (w, e2, h2) = bind_ok (meta_of value false) _ h1 in
    let (s, e3, h3) = bind_ok (meta_of slot_mapping false) _ h2 in
    let (blocks, e4, h4) = bind_ok (size kv_cache 1) _ h3 in
    let (acl, e5, h5) = bind_ok (to_acl_dtype key.dtype) _ h4 in
    let (step, e6, h6) = bind_ok (stride kv_cache_out 0) _ h5 in
    let (b, e7, h7) = bind_ok (element_size kv_cache_out) _ h6 in
    let made = ok-inj h7 in
    let plane : ℕ = nb * (bs * (op.num_kv_heads * op.head_size)) in
    let is_step : step ≡ plane =
      ok-inj (
        sym e6
        ∙ stride-eq kv_cache_out 0 (omega arith)
        ∙ ap (λ (xs : List ℕ). access (get_elem? xs 0)) strides)
      ∙ plane_one nb bs op.num_kv_heads op.head_size in
    let is_bytes : b ≡ bytes = ok-inj (sym e7 ∙ typed) in
    let offset : v.v_offset_bytes ≡ plane * bytes =
      sym (ap (λ (c : CacheViews). c.v_offset_bytes) made)
      ∙ (λ i. mul64 (is_step i) (is_bytes i))
      ∙ omega arith in
    let view =
      sym (ap (λ (c : CacheViews). c.view.strides) made)
      ∙ view_strides (mul64 blocks op.block_size) op.num_kv_heads op.head_size acl small
          some_heads in
    let slots : ℕ = block * bs + within in
    ap (λ (xs : List ℕ). dot (kv ∷ block ∷ within ∷ head ∷ element ∷ []) xs * bytes) strides
    ∙ ap (λ n. n * bytes)
        (slot_offset kv nb bs op.num_kv_heads op.head_size block within head element)
    ∙ distribute kv plane
        (dot (slots ∷ head ∷ element ∷ []) (op.num_kv_heads * op.head_size ∷ op.head_size ∷ 1 ∷ []))
        bytes
    ∙ (λ i. kv * sym offset i + dot (slots ∷ head ∷ element ∷ []) (sym view i) * bytes)
