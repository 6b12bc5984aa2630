-- ===== src/Cuda/Elementwise/Threads.antt =====
-- What the threads of a grid write, one after another.
use infini_ops.Prelude.{
  ℕ, ◌<◌, ◌≡◌, ◌≢◌, refl, sym, ap, ◌∙◌, arith, true, false, Bool, ◌&&◌, ◌==◌, ==_iff, ltb, lt→ltb,
  ltb→lt, if◌then◌else◌, List, [], ◌∷◌, Outcome, ok, Bool-cases, inl, inr,
}
use infini_ops.Prelude.Equality.{nat_eq}
use infini_ops.Prelude.Schedule.{Occurs, run_jobs, apply_job, run_jobs-covered}
use infini_ops.Base.Elementwise.{Elementwise}
use infini_ops.Cuda.Launch.{Grid, thread_index}
use infini_ops.Cuda.Elementwise.{thread_offset, run_thread, run_threads}

-- Where the elements of the three tensors lie: the offsets that a thread finds are those of `input_at`,
-- `other_at` and `out_at`, and no two elements of the output share a place.
pub record IsPlaced (op : Elementwise) (input_at other_at out_at : ℕ → ℕ) : Type 0 where
  pub input_placed :
      (i : ℕ)
      → i < op.output_size
      → thread_offset op.dims i op.is_input_contiguous op.input_shape op.input_strides
        ≡ ok (input_at i)
  pub other_placed :
      (i : ℕ)
      → i < op.output_size
      → thread_offset op.dims i op.is_other_contiguous op.other_shape op.other_strides
        ≡ ok (other_at i)
  pub out_placed :
      (i : ℕ)
      → i < op.output_size
      → thread_offset op.dims i op.is_out_contiguous op.out_shape op.out_strides ≡ ok (out_at i)
  pub apart : (i j : ℕ) → i < op.output_size → j < op.output_size → out_at i ≡ out_at j → i ≡ j

module _ {V : Type 0} (combine : V → V → V) (op : Elementwise) (input other : ℕ → V)
    (input_at other_at out_at : ℕ → ℕ) (placed : IsPlaced op input_at other_at out_at) where
  abbrev pub result_at : ℕ → V
  result_at i = combine (input (input_at i)) (other (other_at i))

  module _ (grid : Grid) where
    -- The place that a thread writes to, if it writes.
    abbrev pub writes : ℕ × ℕ → ℕ → Bool
    writes thread x =
        let idx = thread_index grid thread in ltb idx op.output_size && (x == out_at idx)

    abbrev pub written : ℕ × ℕ → ℕ → V
    written thread x = result_at (thread_index grid thread)

    run_thread-job :
        (thread : ℕ × ℕ) (out : ℕ → V)
        → run_thread combine op input other grid thread out
          ≡ ok (apply_job writes written thread out)
    unfolding run_thread
    run_thread-job thread out =
        let idx = thread_index grid thread in
        let after : Bool → Outcome (ℕ → V) =
          λ b. ok (λ x. if b && (x == out_at idx) then written thread x else out x) in
        elim (Bool-cases (ltb idx op.output_size)) [
          | inr idle ↦ rw idle (ap after (sym idle))
          | inl busy ↦
              let lt = ltb→lt idx op.output_size busy in
              rw
                (
                  busy,
                  placed.out_placed idx lt,
                  placed.input_placed idx lt,
                  placed.other_placed idx lt,
                )
                (ap after (sym busy))
        ]

    pub run_threads-jobs :
        (order : List (ℕ × ℕ)) (out : ℕ → V)
        → run_threads combine op input other grid order out ≡ ok (run_jobs writes written order out)
    unfolding run_threads run_jobs
    run_threads-jobs [] out = refl
    run_threads-jobs (thread ∷ order) out =
        rw (run_thread-job thread out)
          (run_threads-jobs order (apply_job writes written thread out))

    pub same_index :
        (k : ℕ × ℕ) (i : ℕ)
        → i < op.output_size
        → writes k (out_at i) ≡ true
        → thread_index grid k ≡ i
    same_index k i lt hit =
        let idx = thread_index grid k in
        let busy : ltb idx op.output_size ≡ true = ground arith in
        let place : (out_at i == out_at idx) ≡ true = ground arith in
        sym (
          placed.apart i idx lt (ltb→lt idx op.output_size busy)
            ((==_iff (out_at i) (out_at idx)).0 place))

    pub not_written :
        (k : ℕ × ℕ) (x : ℕ) → ((i : ℕ) → i < op.output_size → x ≢ out_at i) → writes k x ≡ false
    not_written k x free = elim (Bool-cases (writes k x)) [
      | inr miss ↦ miss
      | inl hit ↦
          let idx = thread_index grid k in
          let busy : ltb idx op.output_size ≡ true = ground arith in
          let place : (x == out_at idx) ≡ true = ground arith in
          absurd (free idx (ltb→lt idx op.output_size busy) ((==_iff x (out_at idx)).0 place))
    ]

    -- An element that some thread has as its index.
    pub covered :
        (order : List (ℕ × ℕ)) (out : ℕ → V) (thread : ℕ × ℕ) (i : ℕ)
        → i < op.output_size
        → thread_index grid thread ≡ i
        → Occurs thread order
        → run_jobs writes written order out (out_at i) ≡ result_at i
    covered order out thread i lt is_index occurs =
        run_jobs-covered writes written order out thread (out_at i)
          (λ k o hit. ap result_at (same_index k i lt hit ∙ sym is_index)) occurs
          (rw (is_index, lt→ltb i op.output_size lt) ((==_iff (out_at i) (out_at i)).1 refl))
        ∙ ap result_at is_index
