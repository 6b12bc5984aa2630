-- ===== src/Base/PagedAttention/Layout.antt =====
-- The layout that the comment of src/base/paged_attention.h gives to the tensors.
use infini_ops.Prelude.{ℕ, ◌≡◌, sym, subst, [], ◌∷◌, Option, ok, assert, bind_ok, ok-inj}
use infini_ops.DataType.{DataType, data_type_eq}
use infini_ops.Tensor.{Tensor, size}
use infini_ops.Base.Checks.{
  has_ndim, has_size, has_dtype, has_unit_stride, when_given, same_shape, is_multiple,
}
use infini_ops.Base.Checks.Laws.{
  assert-true, then_ok, has_size-size, same_shape-shape, shape-one, shape-two, shape-three,
  shape-four,
}
use infini_ops.Base.PagedAttention.{PagedAttention, check_caches, mirrors, paged_attention}

-- The shapes of query and caches.
record Caches (query key_cache value_cache output : Tensor)
    (batch_size num_heads num_kv_heads head_size block_size : ℕ) : Type 0 where
  query_shape : query.shape ≡ batch_size ∷ num_heads ∷ head_size ∷ []
  num_blocks : ℕ
  key_shape : key_cache.shape ≡ num_blocks ∷ block_size ∷ num_kv_heads ∷ head_size ∷ []
  value_shape : value_cache.shape ≡ key_cache.shape
  output_shape : output.shape ≡ query.shape

check_caches-Caches :
    (query key_cache value_cache output : Tensor)
    (batch_size num_heads num_kv_heads head_size block_size : ℕ)
    → size query 0 ≡ ok batch_size
    → check_caches query key_cache value_cache output num_heads num_kv_heads head_size block_size
      ≡ ok tt
    → Caches query key_cache value_cache output batch_size num_heads num_kv_heads head_size
        block_size
unfolding check_caches
check_caches-Caches q k v out batch heads kv dim block first h =
    let (d, divides, h1) = bind_ok (is_multiple heads kv) _ h in
    let (u2, h2) = then_ok (assert d) h1 in
    let (q3, h3) = then_ok (has_ndim q 3) h2 in
    let (k4, h4) = then_ok (has_ndim k 4) h3 in
    let (v4, h5) = then_ok (has_ndim v 4) h4 in
    let (kv_same, h6) = then_ok (same_shape k v) h5 in
    let (t1, h7) = then_ok (has_dtype k q.dtype) h6 in
    let (t2, h8) = then_ok (has_dtype v q.dtype) h7 in
    let (t3, h9) = then_ok (has_dtype out q.dtype) h8 in
    let (q1, h10) = then_ok (has_size q 1 heads) h9 in
    let (k1, h11) = then_ok (has_size k 1 block) h10 in
    let (k2, h12) = then_ok (has_size k 2 kv) h11 in
    let (q2, h13) = then_ok (has_size q 2 dim) h12 in
    let (k3, h14) = then_ok (has_size k 3 dim) h13 in
    let (s1, h15) = then_ok (has_unit_stride q) h14 in
    let (s2, h16) = then_ok (has_unit_stride k) h15 in
    let (s3, h17) = then_ok (has_unit_stride v) h16 in
    let (s4, out_same) = then_ok (has_unit_stride out) h17 in
    let (num_blocks, key_shape) =
      shape-four k block kv dim k4 (has_size-size k 1 block k1) (has_size-size k 2 kv k2)
        (has_size-size k 3 dim k3) in
    record {
      query_shape =
          shape-three q batch heads dim q3 first (has_size-size q 1 heads q1)
            (has_size-size q 2 dim q2);
      num_blocks = num_blocks;
      key_shape = key_shape;
      value_shape = sym (same_shape-shape k v kv_same);
      output_shape = same_shape-shape out q out_same;
    }

-- What the documented layout says of the tensors of an operator.
pub record Layout (op : PagedAttention)
    (query key_cache value_cache seq_lens block_table output : Tensor) : Type 0 where
  pub query_shape : query.shape ≡ op.batch_size ∷ op.num_heads ∷ op.head_size ∷ []
  pub num_blocks : ℕ
  pub key_shape : key_cache.shape ≡ num_blocks ∷ op.block_size ∷ op.num_kv_heads ∷ op.head_size ∷ []
  pub value_shape : value_cache.shape ≡ key_cache.shape
  pub seq_lens_shape : seq_lens.shape ≡ op.batch_size ∷ []
  pub max_num_blocks_per_seq : ℕ
  pub block_table_shape : block_table.shape ≡ op.batch_size ∷ max_num_blocks_per_seq ∷ []
  pub output_shape : output.shape ≡ query.shape

-- When the constructor of `PagedAttention` accepts its arguments, the tensors have the documented
-- layout: `[batch, num_heads, head_size]` for the query and the output, `[num_blocks, block_size,
-- num_kv_heads, head_size]` for both caches, `[batch]` for `seq_lens` and
-- `[batch, max_num_blocks_per_seq]` for `block_table`, by the numbers that the object keeps.
pub paged_attention-Layout :
    (query key_cache value_cache seq_lens block_table : Tensor)
    (num_heads num_kv_heads head_size block_size : ℕ) (output : Tensor)
    (seq_lens_host block_table_host : Option Tensor) (op : PagedAttention)
    → paged_attention query key_cache value_cache seq_lens block_table num_heads num_kv_heads
        head_size block_size output seq_lens_host block_table_host
      ≡ ok op
    → Layout op query key_cache value_cache seq_lens block_table output
unfolding paged_attention
paged_attention-Layout q k v lens table heads kv dim block out lens_host table_host op h =
    let (batch, first, h1) = bind_ok (size q 0) _ h in
    let (caches, h2) = then_ok (check_caches q k v out heads kv dim block) h1 in
    let (l1, h3) = then_ok (has_ndim lens 1) h2 in
    let (l0, h4) = then_ok (has_size lens 0 batch) h3 in
    let (l32, h5) = then_ok (has_dtype lens DataType.int32) h4 in
    let (t2, h6) = then_ok (has_ndim table 2) h5 in
    let (t0, h7) = then_ok (has_size table 0 batch) h6 in
    let (t32, h8) = then_ok (has_dtype table DataType.int32) h7 in
    let (m1, h9) = then_ok (when_given lens_host (mirrors lens)) h8 in
    let (m2, final) = then_ok (when_given table_host (mirrors table)) h9 in
    let c = check_caches-Caches q k v out batch heads kv dim block first caches in
    let (max_blocks, table_shape) = shape-two table batch t2 (has_size-size table 0 batch t0) in
    subst (λ (o : PagedAttention). Layout o q k v lens table out) (ok-inj final)
      (record {
        query_shape = c.query_shape;
        num_blocks = c.num_blocks;
        key_shape = c.key_shape;
        value_shape = c.value_shape;
        seq_lens_shape = shape-one lens batch l1 (has_size-size lens 0 batch l0);
        max_num_blocks_per_seq = max_blocks;
        block_table_shape = table_shape;
        output_shape = c.output_shape;
      })

has_dtype-dtype : (t : Tensor) (dtype : DataType) → has_dtype t dtype ≡ ok tt → t.dtype ≡ dtype
has_dtype-dtype t dtype h =
    (data_type_eq.beq_iff t.dtype dtype).0 (assert-true (data_type_eq.beq t.dtype dtype) h)

-- The caches and the output have the type of the query.
pub record SameTypes (query key_cache value_cache output : Tensor) : Type 0 where
  pub key_dtype : key_cache.dtype ≡ query.dtype
  pub value_dtype : value_cache.dtype ≡ query.dtype
  pub output_dtype : output.dtype ≡ query.dtype

pub paged_attention-SameTypes :
    (query key_cache value_cache seq_lens block_table : Tensor)
    (num_heads num_kv_heads head_size block_size : ℕ) (output : Tensor)
    (seq_lens_host block_table_host : Option Tensor) (op : PagedAttention)
    → paged_attention query key_cache value_cache seq_lens block_table num_heads num_kv_heads
        head_size block_size output seq_lens_host block_table_host
      ≡ ok op
    → SameTypes query key_cache value_cache output
unfolding paged_attention check_caches
paged_attention-SameTypes q k v lens table heads kv dim block out lens_host table_host op h =
    let (batch, first, h0) = bind_ok (size q 0) _ h in
    let (caches, rest) = then_ok (check_caches q k v out heads kv dim block) h0 in
    let (d, divides, h1) = bind_ok (is_multiple heads kv) _ caches in
    let (u2, h2) = then_ok (assert d) h1 in
    let (q3, h3) = then_ok (has_ndim q 3) h2 in
    let (k4, h4) = then_ok (has_ndim k 4) h3 in
    let (v4, h5) = then_ok (has_ndim v 4) h4 in
    let (kv_same, h6) = then_ok (same_shape k v) h5 in
    let (t1, h7) = then_ok (has_dtype k q.dtype) h6 in
    let (t2, h8) = then_ok (has_dtype v q.dtype) h7 in
    let (t3, h9) = then_ok (has_dtype out q.dtype) h8 in
    record {
      key_dtype = has_dtype-dtype k q.dtype t1;
      value_dtype = has_dtype-dtype v q.dtype t2;
      output_dtype = has_dtype-dtype out q.dtype t3;
    }
