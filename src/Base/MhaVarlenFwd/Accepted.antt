-- ===== src/Base/MhaVarlenFwd/Accepted.antt =====
-- What holds of the arguments that `MhaVarlenFwd` accepts.
use native.Mathlib.Nat.{div-lt_iff_lt-mul, div-add-mod}
use infini_ops.Prelude.{
  ℕ, zero, suc, ◌+◌, ◌*◌, ◌/◌, ◌%◌, ◌^◌, ◌<◌, ◌≤◌, ◌≡◌, sym, ◌∙◌, subst, Bool, true, not, Option,
  ok, assert, sub64, mul64, List, [], ◌∷◌, ◌==◌, ==_iff, leb, ltb, negative, if◌then◌else◌, refl,
  none, some, length, get_elem?, access, ok-inj, fail-ok, bind_ok, arith, Bool-cases, inl, inr,
}
use infini_ops.DataType.{DataType, data_type_eq}
use infini_ops.Tensor.{Tensor, numel, size, product_from}
use infini_ops.Base.Checks.{
  has_ndim, same_shape, has_dtype, has_unit_stride, is_size_multiple, when_given, is_given,
}
use infini_ops.Base.Checks.Laws.{
  then_ok, assert-true, size_near, has_ndim-length, has_size-size, same_shape-shape, shape-three,
}
use infini_ops.Base.MhaFwdKvcache.{is_int32_with, is_alibi}
use infini_ops.Base.MhaVarlenFwd.{
  MhaVarlenFwd, varlen_fields, check_paged, check_varlen, mha_varlen_fwd,
}

is_size_multiple-true :
    (a b : ℕ) (d : Bool) → is_size_multiple a b ≡ ok d → d ≡ true → (0 < b) × (a % b ≡ 0)
unfolding is_size_multiple
is_size_multiple-true a b d h passed = elim (Bool-cases (b == 0)) [
  | inl zero_heads ↦ absurd (fail-ok (rw (zero_heads, is_size_multiple) at h))
  | inr some_heads ↦
      let test : (a % b == 0) ≡ d = ok-inj (rw (some_heads, is_size_multiple) at h) in
      (ground arith, (==_iff (a % b) 0).0 (test ∙ passed))
]

positive_factor : (b q a : ℕ) → b * q ≡ a → 0 < a → 0 < q
positive_factor b zero a e pos = absurd (omega (arith, e))
positive_factor b (suc q) a e pos = omega arith

-- The keys' head of a query's head.
pub group_bound : (a b h : ℕ) → 0 < b → a % b ≡ 0 → h < a → h / (a / b) < b
group_bound a b h pos whole lt =
    let split : b * (a / b) ≡ a = omega (arith, div-add-mod a b, whole) in
    let some_heads : 0 < a / b = positive_factor b (a / b) a split (omega arith) in
    (div-lt_iff_lt-mul {k = a / b} {x = h} {y = b} some_heads).1 (omega (arith, split))

product_from-word : (acc : ℕ) (shape : List ℕ) → acc < 2 ^ 64 → product_from acc shape < 2 ^ 64
unfolding product_from
product_from-word acc [] h = h
product_from-word acc (s ∷ shape) h = product_from-word (mul64 acc s) shape (omega arith)

-- `numel` is a word.
numel-word : (t : Tensor) → numel t < 2 ^ 64
unfolding numel
numel-word t = product_from-word 1 t.shape (omega arith)

record Heads (op : MhaVarlenFwd) (q out cu_seqlens_q cu_seqlens_k : Tensor) : Type 0 where
  some_kv_heads : 0 < op.num_kv_heads
  whole : op.num_heads % op.num_kv_heads ≡ 0
  head_size_most : op.head_size ≤ 256
  head_size_whole : op.head_size % 8 ≡ 0
  some_batch : 1 < numel cu_seqlens_q
  same_batch : numel cu_seqlens_q ≡ numel cu_seqlens_k
  same_output : out.shape ≡ q.shape

check_varlen-Heads :
    (op : MhaVarlenFwd) (q k v out cu_seqlens_q cu_seqlens_k : Tensor)
    → check_varlen op q k v out cu_seqlens_q cu_seqlens_k ≡ ok tt
    → Heads op q out cu_seqlens_q cu_seqlens_k
unfolding check_varlen
check_varlen-Heads op q k v out cu_q cu_k h =
    let (a1, h1) = then_ok (has_dtype k q.dtype) h in
    let (a2, h2) = then_ok (has_dtype v q.dtype) h1 in
    let (a3, h3) = then_ok (has_dtype out q.dtype) h2 in
    let (a4, h4) = then_ok (has_unit_stride k) h3 in
    let (a5, h5) = then_ok (has_unit_stride v) h4 in
    let (a6, h6) = then_ok (has_unit_stride q) h5 in
    let (divides, known, h7) = bind_ok (is_size_multiple op.num_heads op.num_kv_heads) _ h6 in
    let (passed, h8) = then_ok (assert divides) h7 in
    let (most, h9) = then_ok (assert (leb op.head_size 256)) h8 in
    let (eighths, h10) = then_ok (assert (op.head_size % 8 == 0)) h9 in
    let (a7, h11) = then_ok (has_ndim cu_q 1) h10 in
    let (a8, h12) = then_ok (has_ndim cu_k 1) h11 in
    let (a9, h13) = then_ok (has_dtype cu_q DataType.int32) h12 in
    let (a10, h14) = then_ok (has_dtype cu_k DataType.int32) h13 in
    let (batch, h15) = then_ok (assert (ltb 1 (numel cu_q))) h14 in
    let (same, h16) = then_ok (assert (numel cu_q == numel cu_k)) h15 in
    let (same_out, h17) = then_ok (same_shape out q) h16 in
    let (pos, whole) =
      is_size_multiple-true op.num_heads op.num_kv_heads divides known
        (assert-true divides passed) in
    let most' = assert-true (leb op.head_size 256) most in
    let batch' = assert-true (ltb 1 (numel cu_q)) batch in
    record {
      some_kv_heads = pos;
      whole = whole;
      head_size_most = ground arith;
      head_size_whole = (==_iff _ 0).0 (assert-true (op.head_size % 8 == 0) eighths);
      some_batch = ground arith;
      same_batch = (==_iff _ _).0 (assert-true (numel cu_q == numel cu_k) same);
      same_output = same_shape-shape out q same_out;
    }

end_of_three :
    (xs : List ℕ) (b c : ℕ)
    → length xs ≡ 3
    → access (get_elem? xs 1) ≡ ok b
    → access (get_elem? xs 2) ≡ ok c
    → (a : ℕ) × (xs ≡ a ∷ b ∷ c ∷ [])
end_of_three [] b c n h1 h2 = absurd (omega arith)
end_of_three (x ∷ []) b c n h1 h2 = absurd (omega arith)
end_of_three (x ∷ y ∷ []) b c n h1 h2 = absurd (omega arith)
end_of_three (x ∷ y ∷ z ∷ []) b c n h1 h2 = (x, λ i. x ∷ ok-inj h1 i ∷ ok-inj h2 i ∷ [])
end_of_three (x ∷ y ∷ z ∷ w ∷ ws) b c n h1 h2 = absurd (omega arith)

end_of_four :
    (xs : List ℕ) (c d : ℕ)
    → length xs ≡ 4
    → access (get_elem? xs 2) ≡ ok c
    → access (get_elem? xs 3) ≡ ok d
    → (a : ℕ) × (b : ℕ) × (xs ≡ a ∷ b ∷ c ∷ d ∷ [])
end_of_four [] c d n h1 h2 = absurd (omega arith)
end_of_four (x ∷ []) c d n h1 h2 = absurd (omega arith)
end_of_four (x ∷ y ∷ []) c d n h1 h2 = absurd (omega arith)
end_of_four (x ∷ y ∷ z ∷ []) c d n h1 h2 = absurd (omega arith)
end_of_four (x ∷ y ∷ z ∷ w ∷ []) c d n h1 h2 = (x, y, λ i. x ∷ y ∷ ok-inj h1 i ∷ ok-inj h2 i ∷ [])
end_of_four (x ∷ y ∷ z ∷ w ∷ v ∷ vs) c d n h1 h2 = absurd (omega arith)

last_two :
    (t : Tensor) (b c : ℕ)
    → has_ndim t 3 ≡ ok tt
    → size t 1 ≡ ok b
    → size t 2 ≡ ok c
    → (a : ℕ) × (t.shape ≡ a ∷ b ∷ c ∷ [])
last_two t b c n h1 h2 =
    end_of_three t.shape b c (has_ndim-length t 3 n) (size_near t 1 b (omega arith) h1)
      (size_near t 2 c (omega arith) h2)

last_two_of_four :
    (t : Tensor) (c d : ℕ)
    → has_ndim t 4 ≡ ok tt
    → size t 2 ≡ ok c
    → size t 3 ≡ ok d
    → (a : ℕ) × (b : ℕ) × (t.shape ≡ a ∷ b ∷ c ∷ d ∷ [])
last_two_of_four t c d n h1 h2 =
    end_of_four t.shape c d (has_ndim-length t 4 n) (size_near t 2 c (omega arith) h1)
      (size_near t 3 d (omega arith) h2)

-- The sizes of the tensors, where the fields were read.
record Sizes (op : MhaVarlenFwd) (q k cu_seqlens_q : Tensor) (block_table : Option Tensor)
    : Type 0 where
  batch : op.batch_size ≡ sub64 (numel cu_seqlens_q) 1
  tokens : size q 0 ≡ ok op.total_q
  heads : size q 1 ≡ ok op.num_heads
  width : size q 2 ≡ ok op.head_size
  kv_heads : (if is_given block_table then size k 2 else size k 1) ≡ ok op.num_kv_heads

varlen_fields-Sizes :
    (q k cu_seqlens_q : Tensor) (block_table : Option Tensor) (op : MhaVarlenFwd)
    → varlen_fields q k cu_seqlens_q block_table ≡ ok op
    → Sizes op q k cu_seqlens_q block_table
unfolding varlen_fields
varlen_fields-Sizes q k cu_q table op h =
    let (total, s0, h1) = bind_ok (size q 0) _ h in
    let (heads, s1, h2) = bind_ok (size q 1) _ h1 in
    let (dim, s2, h3) = bind_ok (size q 2) _ h2 in
    let (kv, s3, final) = bind_ok (if is_given table then size k 2 else size k 1) _ h3 in
    subst (λ (o : MhaVarlenFwd). Sizes o q k cu_q table) (ok-inj final)
      (record { batch = refl; tokens = s0; heads = s1; width = s2; kv_heads = s3 })

-- The shape of keys: of tokens without a block table, and of the blocks of a paged cache with one.
abbrev KeyShape : MhaVarlenFwd → Option Tensor → List ℕ → Type 0
KeyShape op none shape = (tokens : ℕ) × (shape ≡ tokens ∷ op.num_kv_heads ∷ op.head_size ∷ [])
KeyShape op (some block_table) shape =
    (num_blocks : ℕ) × (block_size : ℕ) × (shape
      ≡ num_blocks ∷ block_size ∷ op.num_kv_heads ∷ op.head_size ∷ [])

check_paged-KeyShape :
    (op : MhaVarlenFwd) (q k v cu_seqlens_q : Tensor) (block_table : Option Tensor)
    → Sizes op q k cu_seqlens_q block_table
    → check_paged op k v block_table ≡ ok tt
    → KeyShape op block_table k.shape × (v.shape ≡ k.shape)
unfolding check_paged
check_paged-KeyShape op q k v cu_q none found h =
    let (k3, h1) = then_ok (has_ndim k 3) h in
    let (v3, h2) = then_ok (has_ndim v 3) h1 in
    let (same, last) = then_ok (same_shape k v) h2 in
    (
      last_two k op.num_kv_heads op.head_size k3 found.kv_heads
          (has_size-size k 2 op.head_size last),
      sym (same_shape-shape k v same),
    )
check_paged-KeyShape op q k v cu_q (some table) found h =
    let (k4, h1) = then_ok (has_ndim k 4) h in
    let (v4, h2) = then_ok (has_ndim v 4) h1 in
    let (t2, h3) = then_ok (is_int32_with 2 table) h2 in
    let (same, last) = then_ok (same_shape k v) h3 in
    (
      last_two_of_four k op.num_kv_heads op.head_size k4 found.kv_heads
          (has_size-size k 3 op.head_size last),
      sym (same_shape-shape k v same),
    )

-- When the constructor of `MhaVarlenFwd` accepts its arguments: the query and the output have the shape
-- of the object's tokens, heads and head size, and the keys and values that of its key heads and head
-- size, in tokens or, with a block table, in blocks; every head of the query reads one of these key
-- heads, where equal groups of query heads share one; the head size is a multiple of 8 of at most 256;
-- the two lists of sequence bounds have the same number of elements; and the batch
-- is not empty, with one element fewer than that.
pub mha_varlen_fwd-accepts :
    (q k v out cu_seqlens_q cu_seqlens_k : Tensor)
    (seqused_k leftpad_k block_table alibi_slopes : Option Tensor) (max_seqlen_q max_seqlen_k : ℕ)
    (is_probability is_finite : Bool) (op : MhaVarlenFwd)
    → mha_varlen_fwd q k v out cu_seqlens_q cu_seqlens_k seqused_k leftpad_k block_table
        alibi_slopes max_seqlen_q max_seqlen_k is_probability is_finite
      ≡ ok op
    → (q.shape ≡ op.total_q ∷ op.num_heads ∷ op.head_size ∷ [])
      × (out.shape ≡ q.shape)
      × KeyShape op block_table k.shape
      × (v.shape ≡ k.shape)
      × ((head : ℕ)
          → head < op.num_heads
          → head / (op.num_heads / op.num_kv_heads) < op.num_kv_heads)
      × (op.head_size ≤ 256)
      × (op.head_size % 8 ≡ 0)
      × (numel cu_seqlens_q ≡ numel cu_seqlens_k)
      × (0 < op.batch_size)
      × (op.batch_size + 1 ≡ numel cu_seqlens_q)
unfolding mha_varlen_fwd
mha_varlen_fwd-accepts q k v out cu_q cu_k seqused leftpad table slopes max_q max_k prob fin op h =
    let (made, fields, h1) = bind_ok (varlen_fields q k cu_q table) _ h in
    let (a1, h2) = then_ok (has_ndim q 3) h1 in
    let (a2, h3) = then_ok (check_paged made k v table) h2 in
    let (heads, h4) = then_ok (check_varlen made q k v out cu_q cu_k) h3 in
    let (a3, h5) = then_ok (assert prob) h4 in
    let (a4, h6) = then_ok (assert fin) h5 in
    let (a5, h7) = then_ok (assert (not (negative max_q))) h6 in
    let (a6, h8) = then_ok (assert (not (negative max_k))) h7 in
    let (a7, h9) = then_ok (when_given seqused (is_int32_with 1)) h8 in
    let (a8, h10) = then_ok (when_given leftpad (is_int32_with 1)) h9 in
    let (a9, final) = then_ok (when_given slopes is_alibi) h10 in
    let n = check_varlen-Heads made q k v out cu_q cu_k heads in
    let found = varlen_fields-Sizes q k cu_q table made fields in
    let batch = found.batch in
    let (keys, values) = check_paged-KeyShape made q k v cu_q table found a2 in
    let some_batch = n.some_batch in
    let few = numel-word cu_q in
    subst
      (λ (o : MhaVarlenFwd).
        (q.shape ≡ o.total_q ∷ o.num_heads ∷ o.head_size ∷ [])
        × (out.shape ≡ q.shape)
        × KeyShape o table k.shape
        × (v.shape ≡ k.shape)
        × ((head : ℕ) → head < o.num_heads → head / (o.num_heads / o.num_kv_heads) < o.num_kv_heads)
        × (o.head_size ≤ 256)
        × (o.head_size % 8 ≡ 0)
        × (numel cu_q ≡ numel cu_k)
        × (0 < o.batch_size)
        × (o.batch_size + 1 ≡ numel cu_q))
      (ok-inj final)
      (
        shape-three q made.total_q made.num_heads made.head_size a1 found.tokens found.heads
            found.width,
        n.same_output,
        keys,
        values,
        λ head lt. group_bound made.num_heads made.num_kv_heads head n.some_kv_heads n.whole lt,
        n.head_size_most,
        n.head_size_whole,
        n.same_batch,
        omega (arith, batch, some_batch, few),
        omega (arith, batch, some_batch, few),
      )
