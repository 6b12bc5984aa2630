-- ===== src/Ascend/GraphCleanup/Stack.antt =====
-- A stack of scopes, and how the linked scopes represent it.
use infini_ops.Prelude.{
  ℕ_discrete, ℕ, ◌≡◌, ◌≢◌, refl, ap, sym, subst, ◌∙◌, ◌==◌, ==_iff, if◌then◌else◌, Bool-cases, inl,
  inr, List, [], ◌∷◌, ◌++◌, Option, none, some, arith, false,
}
use infini_ops.Ascend.GraphCleanup.{
  CleanupScope, Cleanups, write_scope, CleanupCall, open_at, close_at, release_at, clean,
}

-- The specification: the open scopes, the innermost first, each with its address and the cleanups
-- that wait for its end, and the cleanups that have run.
pub record Stack (C : Type 0) : Type 0 where
  pub open_scopes : List (ℕ × List C)
  pub ran : List C

module _ {C : Type 0} where
  -- The scopes with none waiting at `i`.
  abbrev pub clear : ℕ → List (ℕ × List C) → List (ℕ × List C)
  clear i [] = []
  clear i ((j, waiting) ∷ rest) = (j, if j == i then [] else waiting) ∷ clear i rest

  abbrev pub pop : List (ℕ × List C) → List C → Stack C
  pop [] ran = record { open_scopes = []; ran = ran }
  pop ((i, waiting) ∷ rest) ran = record { open_scopes = rest; ran = ran ++ waiting }

  abbrev pub await : List (ℕ × List C) → List C → C → Stack C
  await [] ran cleanup = record { open_scopes = []; ran = ran ++ cleanup ∷ [] }
  await ((i, waiting) ∷ rest) ran cleanup = record {
    open_scopes = (i, waiting ++ cleanup ∷ []) ∷ rest;
    ran = ran;
  }

  abbrev pub expected : Stack C → CleanupCall C → Stack C
  expected t (open_at i) = record t { open_scopes = (i, []) ∷ t.open_scopes }
  expected t (close_at i) = pop t.open_scopes t.ran
  expected t (release_at i) = record t { open_scopes = clear i t.open_scopes }
  expected t (clean cleanup) = await t.open_scopes t.ran cleanup

  abbrev pub expected_all : Stack C → List (CleanupCall C) → Stack C
  expected_all t [] = t
  expected_all t (c ∷ calls) = expected_all (expected t c) calls

  -- No open scope has the address.
  abbrev pub Absent : ℕ → List (ℕ × List C) → Type 0
  Absent i [] = Unit {0}
  Absent i ((j, waiting) ∷ rest) = (j ≢ i) × Absent i rest

  abbrev pub Innermost : ℕ → List (ℕ × List C) → Type 0
  Innermost i [] = ⊥
  Innermost i ((j, waiting) ∷ rest) = i ≡ j

  -- Scopes are local variables: a new one has an address of its own, and the innermost ends first.
  abbrev pub IsScoped : List (ℕ × List C) → CleanupCall C → Type 0
  IsScoped open_scopes (open_at i) = Absent i open_scopes
  IsScoped open_scopes (close_at i) = Innermost i open_scopes
  IsScoped open_scopes _ = Unit {0}

  abbrev pub AllScoped : Stack C → List (CleanupCall C) → Type 0
  AllScoped t [] = Unit {0}
  AllScoped t (c ∷ calls) = IsScoped t.open_scopes c × AllScoped (expected t c) calls

  -- The pointers lead from scope to scope.
  abbrev pub Chain : Option ℕ → (ℕ → CleanupScope C) → List (ℕ × List C) → Type 0
  Chain none scopes [] = Unit {0}
  Chain none scopes (x ∷ rest) = ⊥
  Chain (some i) scopes [] = ⊥
  Chain (some i) scopes ((j, waiting) ∷ rest) =
      ((i ≡ j) × ((scopes j).callbacks ≡ waiting)) × Chain (scopes j).previous scopes rest

  abbrev pub Apart : List (ℕ × List C) → Type 0
  Apart [] = Unit {0}
  Apart ((j, waiting) ∷ rest) = Absent j rest × Apart rest

  pub record Implements (s : Cleanups C) (t : Stack C) : Type 0 where
    pub chain : Chain s.active s.scopes t.open_scopes
    pub apart : Apart t.open_scopes
    pub ran_same : s.ran ≡ t.ran

  pub at_self :
      (scopes : ℕ → CleanupScope C) (i : ℕ) (c : CleanupScope C) → write_scope scopes i c i ≡ c
  at_self scopes i c = rw ((==_iff i i).1 refl) refl

  pub at_other :
      (scopes : ℕ → CleanupScope C) (i : ℕ) (c : CleanupScope C) (j : ℕ)
      → j ≢ i
      → write_scope scopes i c j ≡ scopes j
  at_other scopes i c j n = let off : (j == i) ≡ false = ground arith in rw off refl

  pub Chain-write :
      (a : Option ℕ) (scopes : ℕ → CleanupScope C) (i : ℕ) (c : CleanupScope C)
      (st : List (ℕ × List C))
      → Absent i st
      → Chain a scopes st
      → Chain a (write_scope scopes i c) st
  Chain-write none scopes i c [] absent h = tt
  Chain-write none scopes i c (x ∷ rest) absent h = absurd h
  Chain-write (some k) scopes i c [] absent h = absurd h
  Chain-write (some k) scopes i c ((j, waiting) ∷ rest) absent h =
      let same = at_other scopes i c j absent.0 in
      let next = Chain-write (scopes j).previous scopes i c rest absent.1 h.1 in
      (
        (h.0.0, ap (λ (x : CleanupScope C). x.callbacks) same ∙ h.0.1),
        subst (λ (x : CleanupScope C). Chain x.previous (write_scope scopes i c) rest) (sym same)
            next,
      )

  abbrev pub emptied : CleanupScope C → CleanupScope C
  emptied c = record c { callbacks = [] }

  emptied_previous :
      (scopes : ℕ → CleanupScope C) (i j : ℕ)
      → (write_scope scopes i (emptied (scopes i)) j).previous ≡ (scopes j).previous
  emptied_previous scopes i j = elim (ℕ_discrete j i) [
    | yes e ↦
        ap (λ (k : ℕ). (write_scope scopes i (emptied (scopes i)) k).previous) e
        ∙ ap (λ (c : CleanupScope C). c.previous) (at_self scopes i (emptied (scopes i)))
        ∙ ap (λ (k : ℕ). (scopes k).previous) (sym e)
    | no n ↦ ap (λ (c : CleanupScope C). c.previous) (at_other scopes i (emptied (scopes i)) j n)
  ]

  emptied_callbacks :
      (scopes : ℕ → CleanupScope C) (i j : ℕ)
      → (write_scope scopes i (emptied (scopes i)) j).callbacks
        ≡ (if j == i then [] else (scopes j).callbacks)
  emptied_callbacks scopes i j = elim (Bool-cases (j == i)) [
    | inl e ↦ rw e refl
    | inr n ↦ rw n refl
  ]

  pub Chain-clear :
      (a : Option ℕ) (scopes : ℕ → CleanupScope C) (i : ℕ) (st : List (ℕ × List C))
      → Chain a scopes st
      → Chain a (write_scope scopes i (emptied (scopes i))) (clear i st)
  Chain-clear none scopes i [] h = tt
  Chain-clear none scopes i (x ∷ rest) h = absurd h
  Chain-clear (some k) scopes i [] h = absurd h
  Chain-clear (some k) scopes i ((j, waiting) ∷ rest) h = (
    (h.0.0, emptied_callbacks scopes i j ∙ ap (λ (w : List C). if j == i then [] else w) h.0.1),
    subst (λ a. Chain a (write_scope scopes i (emptied (scopes i))) (clear i rest))
        (sym (emptied_previous scopes i j)) (Chain-clear (scopes j).previous scopes i rest h.1),
  )

  Absent-clear : (k i : ℕ) (st : List (ℕ × List C)) → Absent k st → Absent k (clear i st)
  Absent-clear k i [] h = tt
  Absent-clear k i ((j, waiting) ∷ rest) h = (h.0, Absent-clear k i rest h.1)

  pub Apart-clear : (i : ℕ) (st : List (ℕ × List C)) → Apart st → Apart (clear i st)
  Apart-clear i [] h = tt
  Apart-clear i ((j, waiting) ∷ rest) h = (Absent-clear j i rest h.0, Apart-clear i rest h.1)
