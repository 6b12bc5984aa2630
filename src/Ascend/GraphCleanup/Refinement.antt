-- ===== src/Ascend/GraphCleanup/Refinement.antt =====
-- The linked scopes are a stack.
use infini_ops.Prelude.{ℕ, ◌≡◌, refl, ap, sym, subst, ◌∙◌, List, [], ◌∷◌, ◌++◌, Option, none, some}
use infini_ops.Ascend.GraphCleanup.{
  CleanupScope, Cleanups, write_scope, open_scope, close_scope, release_callbacks, defer_or_run,
  CleanupCall, open_at, close_at, release_at, clean, perform, perform_all,
}
use infini_ops.Ascend.GraphCleanup.Stack.{
  Stack, pop, await, expected, expected_all, Absent, Innermost, IsScoped, AllScoped, Chain, Apart,
  Implements, at_self, Chain-write, Chain-clear, Apart-clear,
}

module _ {C : Type 0} where
  open-Implements :
      (s : Cleanups C) (t : Stack C) (i : ℕ)
      → Absent i t.open_scopes
      → Implements s t
      → Implements (open_scope s i) (expected t (open_at i))
  unfolding open_scope
  open-Implements s t i new h =
      let c : CleanupScope C = record { previous = s.active; callbacks = [] } in
      let self = at_self s.scopes i c in
      record {
        chain = (
          (refl, ap (λ (x : CleanupScope C). x.callbacks) self),
          subst (λ (x : CleanupScope C). Chain x.previous (write_scope s.scopes i c) t.open_scopes)
              (sym self) (Chain-write s.active s.scopes i c t.open_scopes new h.chain),
        );
        apart = (new, h.apart);
        ran_same = h.ran_same;
      }

  close-Implements :
      (active : Option ℕ) (scopes : ℕ → CleanupScope C) (ran : List C) (i : ℕ)
      (st : List (ℕ × List C)) (ran' : List C)
      → Innermost i st
      → Chain active scopes st
      → Apart st
      → ran ≡ ran'
      → Implements
          (close_scope (record { active = active; scopes = scopes; ran = ran }) i)
          (pop st ran')
  unfolding close_scope
  close-Implements active scopes ran i [] ran' inner chain apart same = absurd inner
  close-Implements none scopes ran i (x ∷ rest) ran' inner chain apart same = absurd chain
  close-Implements (some k) scopes ran i ((j, waiting) ∷ rest) ran' inner chain apart same =
      record {
        chain = subst (λ (l : ℕ). Chain (scopes l).previous scopes rest) (sym inner) chain.1;
        apart = apart.1;
        ran_same = λ n. same n ++ (ap (λ (l : ℕ). (scopes l).callbacks) inner ∙ chain.0.1) n;
      }

  clean-Implements :
      (active : Option ℕ) (scopes : ℕ → CleanupScope C) (ran : List C) (st : List (ℕ × List C))
      (ran' : List C) (cleanup : C)
      → Chain active scopes st
      → Apart st
      → ran ≡ ran'
      → Implements
          (defer_or_run (record { active = active; scopes = scopes; ran = ran }) cleanup)
          (await st ran' cleanup)
  unfolding defer_or_run
  clean-Implements none scopes ran [] ran' cleanup chain apart same = record {
    chain = tt;
    apart = tt;
    ran_same = λ n. same n ++ cleanup ∷ [];
  }
  clean-Implements none scopes ran (x ∷ rest) ran' cleanup chain apart same = absurd chain
  clean-Implements (some k) scopes ran [] ran' cleanup chain apart same = absurd chain
  clean-Implements (some k) scopes ran ((j, waiting) ∷ rest) ran' cleanup chain apart same =
      let is_k : k ≡ j = chain.0.0 in
      let c : CleanupScope C = record (scopes k) {
        callbacks = (scopes k).callbacks ++ cleanup ∷ [];
      } in
      let self : write_scope scopes k c j ≡ c =
        ap (write_scope scopes k c) (sym is_k) ∙ at_self scopes k c in
      let rest_chain : Chain (scopes k).previous scopes rest =
        subst (λ (l : ℕ). Chain (scopes l).previous scopes rest) (sym is_k) chain.1 in
      let absent : Absent k rest = subst (λ (l : ℕ). Absent l rest) (sym is_k) apart.0 in
      record {
        chain = (
          (
            is_k,
            ap (λ (x : CleanupScope C). x.callbacks) self
                ∙ (λ n. (ap (λ (l : ℕ). (scopes l).callbacks) is_k ∙ chain.0.1) n ++ cleanup ∷ []),
          ),
          subst (λ (x : CleanupScope C). Chain x.previous (write_scope scopes k c) rest) (sym self)
              (Chain-write (scopes k).previous scopes k c rest absent rest_chain),
        );
        apart = apart;
        ran_same = same;
      }

  perform-Implements :
      (s : Cleanups C) (t : Stack C) (c : CleanupCall C)
      → IsScoped t.open_scopes c
      → Implements s t
      → Implements (perform s c) (expected t c)
  unfolding perform
  perform-Implements s t (open_at i) scoped h = open-Implements s t i scoped h
  perform-Implements s t (close_at i) scoped h =
      close-Implements s.active s.scopes s.ran i t.open_scopes t.ran scoped h.chain h.apart
        h.ran_same
  perform-Implements s t (release_at i) scoped h =
      unfold release_callbacks in
      record {
        chain = Chain-clear s.active s.scopes i t.open_scopes h.chain;
        apart = Apart-clear i t.open_scopes h.apart;
        ran_same = h.ran_same;
      }
  perform-Implements s t (clean cleanup) scoped h =
      clean-Implements s.active s.scopes s.ran t.open_scopes t.ran cleanup h.chain h.apart
        h.ran_same

  -- Where scopes have addresses of their own and the innermost ends first, a thread's calls do to
  -- the linked scopes what they do to a stack: a scope is pushed, a cleanup waits in the innermost
  -- scope or runs at once without one, the end of a scope runs its cleanups in their order, and a
  -- release empties it.
  pub perform_all-Implements :
      (s : Cleanups C) (t : Stack C) (calls : List (CleanupCall C))
      → AllScoped t calls
      → Implements s t
      → Implements (perform_all s calls) (expected_all t calls)
  unfolding perform_all
  perform_all-Implements s t [] scoped h = h
  perform_all-Implements s t (c ∷ calls) scoped h =
      perform_all-Implements (perform s c) (expected t c) calls scoped.1
        (perform-Implements s t c scoped.0 h)
