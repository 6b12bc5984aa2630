-- ===== src/Base/Embedding/Accepted.antt =====
-- The shapes that an embedding accepts.
use infini_ops.Prelude.{
  ℕ_discrete, ℕ, zero, suc, ◌+◌, ◌<◌, ◌≤◌, ◌^◌, ◌≡◌, ap, sym, subst, ◌∙◌, List, [], ◌∷◌, ◌++◌,
  length, get_elem?, ok, ok-inj, access, assert, arith, bind_ok,
}
use infini_ops.DataType.{data_type_eq}
use infini_ops.Tensor.{Tensor, ndim, size, get_effective_index}
use infini_ops.Tensor.Contiguous.{size-eq}
use infini_ops.Base.Checks.{from_end, has_ndim, has_dtype, has_size, is_index_type}
use infini_ops.Base.Checks.Laws.{then_ok, has_ndim-length, has_size-size, shape-two}
use infini_ops.Base.Embedding.{Embedding, prefix_matches, embedding}

-- The sizes from `i` on agree.
prefix_matches-size :
    (out input_ids : Tensor) (rounds i : ℕ)
    → prefix_matches out input_ids rounds i ≡ ok tt
    → (j : ℕ) → i ≤ j
    → j < i + rounds
    → size out j ≡ size input_ids j
unfolding prefix_matches
prefix_matches-size out input_ids zero i h j a b = absurd (omega arith)
prefix_matches-size out input_ids (suc rounds) i h j a b =
    let (s, found, h1) = bind_ok (size input_ids i) _ h in
    let (this, h2) = then_ok (has_size out i s) h1 in
    elim (ℕ_discrete j i) [
      | yes e ↦
          ap (size out) e ∙ has_size-size out i s this ∙ sym found ∙ ap (size input_ids) (sym e)
      | no n ↦ prefix_matches-size out input_ids rounds (i + 1) h2 j (omega arith) (omega arith)
    ]

-- A list with one more entry that agrees up to the last.
snoc_of_get :
    (xs ys : List ℕ) (z : ℕ)
    → length xs ≡ length ys + 1
    → ((j : ℕ) → j < length ys → access (get_elem? xs j) ≡ access (get_elem? ys j))
    → access (get_elem? xs (length ys)) ≡ ok z
    → xs ≡ ys ++ z ∷ []
snoc_of_get [] ys z len same last = absurd (omega arith)
snoc_of_get (x ∷ []) [] z len same last = ap (λ (y : ℕ). y ∷ []) (ok-inj last)
snoc_of_get (x ∷ x' ∷ xs) [] z len same last = absurd (omega arith)
snoc_of_get (x ∷ xs) (y ∷ ys) z len same last =
    let first : x ≡ y = ok-inj (same 0 (omega arith)) in
    let rest = snoc_of_get xs ys z (omega arith) (λ j h. same (suc j) (omega arith)) last in
    λ i. first i ∷ rest i

size_last :
    (t : Tensor) (n : ℕ)
    → length t.shape ≡ n + 1
    → n < 2 ^ 63
    → size t (from_end 1) ≡ access (get_elem? t.shape n)
unfolding size get_effective_index
size_last t n len few =
    let last : get_effective_index (from_end 1) (length t.shape) ≡ n = ground arith in
    ap (λ i. access (get_elem? t.shape i)) last

matrix_shape :
    (t : Tensor) (a b : ℕ)
    → has_ndim t 2 ≡ ok tt
    → size t 0 ≡ ok a
    → size t 1 ≡ ok b
    → t.shape ≡ a ∷ b ∷ []
matrix_shape t a b two h0 h1 =
    let (c, shape) = shape-two t a two h0 in
    let second : access (get_elem? t.shape 1) ≡ ok b = sym (size-eq t 1 (omega arith)) ∙ h1 in
    let same : c ≡ b =
      ok-inj (sym (ap (λ (xs : List ℕ). access (get_elem? xs 1)) shape) ∙ second) in
    shape ∙ ap (λ (y : ℕ). a ∷ y ∷ []) same

-- If the constructor accepts, with indices of fewer than 2 ^ 63 - 1 dimensions, the weight is a
-- matrix of the vocabulary size by the hidden size, and the output has the shape of the indices
-- followed by the hidden size.
pub embedding-shape :
    (input_ids weight out : Tensor) (op : Embedding)
    → length input_ids.shape + 1 < 2 ^ 63
    → embedding input_ids weight out ≡ ok op
    → (weight.shape ≡ op.vocab_size ∷ op.hidden_size ∷ [])
      × (out.shape ≡ input_ids.shape ++ op.hidden_size ∷ [])
unfolding embedding ndim
embedding-shape input_ids weight out op few h =
    let (vocab, w0, h1) = bind_ok (size weight 0) _ h in
    let (hidden, w1, h2) = bind_ok (size weight 1) _ h1 in
    let (indices, h3) = then_ok (assert (is_index_type input_ids.dtype)) h2 in
    let (matrix, h4) = then_ok (has_ndim weight 2) h3 in
    let (typed, h5) = then_ok (has_dtype out weight.dtype) h4 in
    let (more, h6) = then_ok (has_ndim out (ndim input_ids + 1)) h5 in
    let (last, h7) = then_ok (has_size out (from_end 1) hidden) h6 in
    let (prefix, final) = then_ok (prefix_matches out input_ids (ndim input_ids) 0) h7 in
    let made = ok-inj final in
    let len = has_ndim-length out (length input_ids.shape + 1) more in
    let agrees = prefix_matches-size out input_ids (length input_ids.shape) 0 prefix in
    let shape : out.shape ≡ input_ids.shape ++ hidden ∷ [] =
      snoc_of_get out.shape input_ids.shape hidden len
        (λ j below.
          sym (size-eq out j (omega arith))
          ∙ agrees j (omega arith) (omega arith)
          ∙ size-eq input_ids j (omega arith))
        (sym (size_last out (length input_ids.shape) len (omega arith))
          ∙ has_size-size out (from_end 1) hidden last) in
    subst
      (λ (o : Embedding).
        (weight.shape ≡ o.vocab_size ∷ o.hidden_size ∷ [])
        × (out.shape ≡ input_ids.shape ++ o.hidden_size ∷ []))
      made (matrix_shape weight vocab hidden matrix w0 w1, shape)
