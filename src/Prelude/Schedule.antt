-- ===== src/Prelude/Schedule.antt =====
-- Jobs that run one after another in some order, each writing values of its own to the places that
-- it covers.
use infini_ops.Prelude.{
  ℕ, ◌≡◌, refl, ap, ◌∙◌, Bool, true, false, List, [], ◌∷◌, if◌then◌else◌, ◌⊎◌, inl, inr, Bool-cases,
}

-- The job is one of the list's.
abbrev pub Occurs : {J : Type 0} → J → List J → Type 0
Occurs j [] = ⊥
Occurs j (h ∷ js) = (h ≡ j) ⊎ Occurs j js

module _ {J V : Type 0} (covers : J → ℕ → Bool) (value : J → ℕ → V) where
  abbrev pub apply_job : J → (ℕ → V) → ℕ → V
  apply_job j out x = if covers j x then value j x else out x

  unfoldable pub run_jobs : List J → (ℕ → V) → ℕ → V
  run_jobs [] out = out
  run_jobs (j ∷ js) out = run_jobs js (apply_job j out)

  -- Jobs that write no other value than `v` to a place leave `v` there.
  pub run_jobs-keeps :
      (js : List J) (out : ℕ → V) (x : ℕ) (v : V)
      → ((j : J) → Occurs j js → covers j x ≡ true → value j x ≡ v)
      → out x ≡ v
      → run_jobs js out x ≡ v
  unfolding run_jobs
  run_jobs-keeps [] out x v agree h = h
  run_jobs-keeps (j ∷ js) out x v agree h =
      run_jobs-keeps js (apply_job j out) x v (λ k occurs. agree k (inr occurs))
        (elim (Bool-cases (covers j x)) [
          | inl hit ↦ rw hit (agree j (inl refl) hit)
          | inr miss ↦ rw miss h
        ])

  -- A place that some job covers holds that job's value in the end, if the jobs agree on it.
  pub run_jobs-covered :
      (js : List J) (out : ℕ → V) (j : J) (x : ℕ)
      → ((k : J) → Occurs k js → covers k x ≡ true → value k x ≡ value j x)
      → Occurs j js
      → covers j x ≡ true
      → run_jobs js out x ≡ value j x
  unfolding run_jobs
  run_jobs-covered [] out j x agree occurs hit = elim occurs [ ]
  run_jobs-covered (h ∷ js) out j x agree (inr occurs) hit =
      run_jobs-covered js (apply_job h out) j x (λ k o. agree k (inr o)) occurs hit
  run_jobs-covered (h ∷ js) out j x agree (inl same) hit =
      let hit' : covers h x ≡ true = ap (λ k. covers k x) same ∙ hit in
      run_jobs-keeps js (apply_job h out) x (value j x) (λ k o. agree k (inr o))
        (rw hit' (ap (λ k. value k x) same))

  -- A place that no job covers keeps what it held.
  pub run_jobs-other :
      (js : List J) (out : ℕ → V) (x : ℕ)
      → ((k : J) → Occurs k js → covers k x ≡ false)
      → run_jobs js out x ≡ out x
  run_jobs-other js out x none_covers =
      run_jobs-keeps js out x (out x) (λ k o hit. absurd (cc (hit, none_covers k o))) refl
