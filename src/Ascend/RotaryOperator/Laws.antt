-- ===== src/Ascend/RotaryOperator/Laws.antt =====
-- The tables that calls read, in any run of calls.
use infini_ops.Prelude.{
  ℕ, ◌≡◌, refl, sym, ap, subst, ◌∙◌, Bool, true, false, Option, none, some, some-inj, clash, ◌==◌,
  ==_iff, Bool-cases, inl, inr, ok, ok-inj, fail-ok, bind_ok, assert, access,
}
use infini_ops.Tensor.{Tensor, size, element_size}
use infini_ops.Base.Checks.Laws.{then_ok}
use infini_ops.Base.Gemm.{value_or}
use infini_ops.Base.RotaryEmbedding.{RotaryEmbedding}
use infini_ops.Ascend.AclDtype.{to_acl_dtype}
use infini_ops.Ascend.RotaryTables.{upload_cos_sin}
use infini_ops.Ascend.RotaryOperator.{
  Upload, RotaryOperator, RotaryOperand, gathered, RotaryCall, upload, rotary_operator,
  refresh_tables, operands, rotary_call,
}

access-some : {A : Type 0} (m : Option A) (a : A) → access m ≡ ok a → m ≡ some a
access-some none a h = absurd (fail-ok h)
access-some (some b) a h = ap some (ok-inj h)

module _ {V : Type 0} (contents : ℕ → ℕ → V) (nothing : V) where
  -- The operators that the constructor and calls lead to.
  pub data Reached : RotaryOperator V → Type 0 where
    made :
        (base : RotaryEmbedding) (query cos_sin_cache : Tensor) (op : RotaryOperator V)
        → rotary_operator contents nothing base query cos_sin_cache ≡ ok op
        → Reached op
    called :
        (op op' : RotaryOperator V) (call : RotaryCall V) (positions query : Tensor)
        (key : Option Tensor) (head_size : ℕ) (cos_sin_cache : Tensor)
        (query_out key_out : Option Tensor) (pre_gathered : Bool)
        → Reached op
        → rotary_call contents nothing op positions query key head_size cos_sin_cache query_out
            key_out pre_gathered
          ≡ ok (op', call)
        → Reached op'

  abbrev tables_of : RotaryOperator V → ℕ → (ℕ → V) × (ℕ → V)
  tables_of op address = upload_cos_sin op.base.head_size (contents address) nothing op.max_seq_len

  -- The tables are those of the cache at the noted address.
  abbrev IsUpload : RotaryOperator V → Upload V → Type 0
  IsUpload op u = (u.cos_table, u.sin_table) ≡ tables_of op u.cos_sin_cache_data

  abbrev IsFresh : RotaryOperator V → Type 0
  IsFresh op = (u : Upload V) → op.uploaded ≡ some u → IsUpload op u

  rotary_operator-IsFresh :
      (base : RotaryEmbedding) (query cos_sin_cache : Tensor) (op : RotaryOperator V)
      → rotary_operator contents nothing base query cos_sin_cache ≡ ok op
      → IsFresh op
  unfolding rotary_operator upload
  rotary_operator-IsFresh base query cache op h =
      let (max_seq_len, _, h1) = bind_ok (size cache 0) _ h in
      let (elem_sz, _, h2) = bind_ok (element_size cache) _ h1 in
      let (whole, h3) = then_ok (assert (base.rotary_dim == base.head_size)) h2 in
      let (neox, h4) = then_ok (assert base.is_neox_style) h3 in
      let (keyed, h5) = then_ok (assert base.has_key) h4 in
      let (acl_dt, _, h6) = bind_ok (to_acl_dtype query.dtype) _ h5 in
      subst IsFresh (ok-inj h6) (elim (Bool-cases base.pre_gathered) [
        | inl pre ↦ λ u. rw pre (λ e. absurd (clash e))
        | inr whole_cache ↦ λ u. rw whole_cache (λ e.
            subst
              (λ (u : Upload V).
                (u.cos_table, u.sin_table)
                ≡ upload_cos_sin base.head_size (contents u.cos_sin_cache_data) nothing max_seq_len)
              (some-inj e) refl)
      ])

  refresh_tables-IsUpload :
      (op : RotaryOperator V) (kept : Upload V) (cos_sin_cache : Tensor)
      → IsUpload op kept
      → IsUpload op (refresh_tables contents nothing op kept cos_sin_cache)
        × ((refresh_tables contents nothing op kept cos_sin_cache).cos_sin_cache_data
            ≡ cos_sin_cache.data_)
  unfolding refresh_tables upload
  refresh_tables-IsUpload op kept cache fresh =
      elim (Bool-cases (cache.data_ == kept.cos_sin_cache_data)) [
        | inl same_address ↦
            let here = (==_iff cache.data_ kept.cos_sin_cache_data).0 same_address in
            rw same_address (fresh, sym here)
        | inr other ↦ rw other (refl, refl)
      ]

  -- What a call reads: the expansion of its cache, unless the rows are gathered already.
  abbrev Reads :
      RotaryOperator V
      → Bool
      → (positions cos_sin_cache : Tensor) → RotaryOperand V
      → RotaryOperand V
      → Type 0
  Reads op true positions cos_sin_cache cos sin = Unit {0}
  Reads op false positions cos_sin_cache cos sin =
      (cos ≡ gathered ((tables_of op cos_sin_cache.data_).0) positions.data_)
      × (sin ≡ gathered ((tables_of op cos_sin_cache.data_).1) positions.data_)

  operands-IsFresh :
      (op : RotaryOperator V) (num_tokens head_size : ℕ) (positions cos_sin_cache : Tensor)
      (pre_gathered : Bool) (found : RotaryOperator V × RotaryOperand V × RotaryOperand V)
      → IsFresh op
      → operands contents nothing op num_tokens head_size positions cos_sin_cache pre_gathered
        ≡ ok found
      → IsFresh (found.0) × Reads op pre_gathered positions cos_sin_cache (found.1) (found.2)
  unfolding operands
  operands-IsFresh op num_tokens head_size positions cache true found fresh h = (
    subst (λ (f : RotaryOperator V × RotaryOperand V × RotaryOperand V). IsFresh (f.0)) (ok-inj h)
        fresh,
    tt,
  )
  operands-IsFresh op num_tokens head_size positions cache false found fresh h =
      let (kept, there, h1) = bind_ok (access op.uploaded) _ h in
      let (held, here) =
        refresh_tables-IsUpload op kept cache (fresh kept (access-some op.uploaded kept there)) in
      let now = refresh_tables contents nothing op kept cache in
      let whole : (now.cos_table, now.sin_table) ≡ tables_of op cache.data_ =
        held ∙ ap (tables_of op) here in
      subst
        (λ (f : RotaryOperator V × RotaryOperand V × RotaryOperand V).
          IsFresh (f.0) × Reads op false positions cache (f.1) (f.2))
        (ok-inj h1)
        (
          λ u e. subst (IsUpload op) (some-inj e) held,
          (
            λ i. gathered ((whole i).0) positions.data_,
            λ i. gathered ((whole i).1) positions.data_,
          ),
        )

  rotary_call-IsFresh :
      (op op' : RotaryOperator V) (call : RotaryCall V) (positions query : Tensor)
      (key : Option Tensor) (head_size : ℕ) (cos_sin_cache : Tensor)
      (query_out key_out : Option Tensor) (pre_gathered : Bool)
      → IsFresh op
      → rotary_call contents nothing op positions query key head_size cos_sin_cache query_out
          key_out pre_gathered
        ≡ ok (op', call)
      → IsFresh op'
        × Reads op pre_gathered positions cos_sin_cache call.cos call.sin
        × (call.query ≡ (value_or query_out query).data_)
  unfolding rotary_call
  rotary_call-IsFresh op op' call positions query key head_size cache query_out key_out pre fresh
        h =
      let (key_in, _, h1) = bind_ok (access key) _ h in
      let (num_tokens, _, h2) = bind_ok (size query 0) _ h1 in
      let (found, from, h3) =
        bind_ok (operands contents nothing op num_tokens head_size positions cache pre) _ h2 in
      let (elem_sz, _, h4) = bind_ok (element_size query) _ h3 in
      let (held, reads) =
        operands-IsFresh op num_tokens head_size positions cache pre found fresh from in
      subst
        (λ (r : RotaryOperator V × RotaryCall V).
          IsFresh (r.0)
          × Reads op pre positions cache ((r.1).cos) ((r.1).sin)
          × ((r.1).query ≡ (value_or query_out query).data_))
        (ok-inj h4) (held, reads, refl)

  Reached-IsFresh : (op : RotaryOperator V) → Reached op → IsFresh op
  Reached-IsFresh op (made base query cache op₀ h) = rotary_operator-IsFresh base query cache op₀ h
  Reached-IsFresh op
        (called op₀ op₁ call positions query key head_size cache query_out key_out pre before h) =
      (rotary_call-IsFresh op₀ op₁ call positions query key head_size cache query_out key_out pre
        (Reached-IsFresh op₀ before) h).0

  -- While what is at an address stays: after any calls of an operator, with caches at any addresses, a
  -- call whose rows are not gathered already has the library gather rows of the two tables of its own
  -- cache, by its own positions, and rotates the output for the query in place.
  pub rotary_call-tables :
      (op op' : RotaryOperator V) (call : RotaryCall V) (positions query : Tensor)
      (key : Option Tensor) (head_size : ℕ) (cos_sin_cache : Tensor)
      (query_out key_out : Option Tensor)
      → Reached op
      → rotary_call contents nothing op positions query key head_size cos_sin_cache query_out
          key_out false
        ≡ ok (op', call)
      → (let tables =
            upload_cos_sin op.base.head_size
              (contents cos_sin_cache.data_)
              nothing
              op.max_seq_len in
          (call.cos ≡ gathered (tables.0) positions.data_)
          × (call.sin ≡ gathered (tables.1) positions.data_)
          × (call.query ≡ (value_or query_out query).data_))
  rotary_call-tables op op' call positions query key head_size cache query_out key_out reached h =
      let (held, reads, rotated) =
        rotary_call-IsFresh op op' call positions query key head_size cache query_out key_out false
          (Reached-IsFresh op reached) h in
      (reads.0, reads.1, rotated)
