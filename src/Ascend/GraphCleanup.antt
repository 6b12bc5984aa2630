-- ===== src/Ascend/GraphCleanup.antt =====
-- src/native/ascend/ops/graph_cleanup_.h: cleanups that wait for the end of the innermost scope of
-- their thread. The scopes stand in a store, by their addresses. A cleanup is a value of a type `C`,
-- and running it is recorded, in order; a cleanup that itself uses the scopes is not modelled.
pub mod Stack
pub mod Refinement
use infini_ops.Prelude.{
  ℕ, ◌==◌, if◌then◌else◌, List, [], ◌∷◌, ◌++◌, Option, none, some, Outcome, ok, ◌>>=◌,
}

-- `DeferredAclCleanupScope`.
pub record CleanupScope (C : Type 0) : Type 0 where
  pub previous : Option ℕ
  pub callbacks : List C

-- `active_acl_cleanup_scope`, the scopes, and the cleanups that have run.
pub record Cleanups (C : Type 0) : Type 0 where
  pub active : Option ℕ
  pub scopes : ℕ → CleanupScope C
  pub ran : List C

abbrev pub write_scope :
    {C : Type 0} → (ℕ → CleanupScope C) → ℕ → CleanupScope C → ℕ → CleanupScope C
write_scope scopes i c j = if j == i then c else scopes j

module _ {C : Type 0} where
  -- The constructor, at the address `i`.
  unfoldable pub open_scope : Cleanups C → ℕ → Cleanups C
  open_scope s i = record s {
    active = some i;
    scopes = write_scope s.scopes i (record { previous = s.active; callbacks = [] });
  }

  -- The destructor.
  unfoldable pub close_scope : Cleanups C → ℕ → Cleanups C
  close_scope s i = record s {
    active = (s.scopes i).previous;
    ran = s.ran ++ (s.scopes i).callbacks;
  }

  -- `Defer`.
  unfoldable pub defer : Cleanups C → ℕ → C → Cleanups C
  defer s i cleanup = record s {
    scopes =
        write_scope s.scopes i
          (record (s.scopes i) { callbacks = (s.scopes i).callbacks ++ cleanup ∷ [] });
  }

  -- `Release`: the state after it, and the callbacks that are moved out.
  unfoldable pub release_callbacks : Cleanups C → ℕ → Cleanups C × List C
  release_callbacks s i = (
    record s { scopes = write_scope s.scopes i (record (s.scopes i) { callbacks = [] }) },
    (s.scopes i).callbacks,
  )

  -- `DeferOrRunAclCleanup`.
  unfoldable pub defer_or_run : Cleanups C → C → Cleanups C
  unfolding defer
  defer_or_run s cleanup = elim s.active [
    | some i ↦ defer s i cleanup
    | none ↦ record s { ran = s.ran ++ cleanup ∷ [] }
  ]

-- The calls of a thread. Scopes are local variables, so the one that closes is the innermost.
pub data CleanupCall (C : Type 0) : Type 0 where
  open_at : ℕ → CleanupCall C
  close_at : ℕ → CleanupCall C
  release_at : ℕ → CleanupCall C
  clean : C → CleanupCall C

module _ {C : Type 0} where
  unfoldable pub perform : Cleanups C → CleanupCall C → Cleanups C
  perform s (open_at i) = open_scope s i
  perform s (close_at i) = close_scope s i
  perform s (release_at i) = (release_callbacks s i).0
  perform s (clean cleanup) = defer_or_run s cleanup

  unfoldable pub perform_all : Cleanups C → List (CleanupCall C) → Cleanups C
  unfolding perform
  perform_all s [] = s
  perform_all s (c ∷ calls) = perform_all (perform s c) calls
