-- ===== src/Cuda/Elementwise/Laws.antt =====
-- What a grid of threads leaves in the output.
use native.Mathlib.Nat.{
  add-div_right, div-add-mod, div-mul-le_self, div-le_self, le-div_iff_mul-le, mod-lt,
  mul-le-mul_left, mul_comm,
}
use infini_ops.Prelude.{
  ℕ, ◌+◌, ◌-◌, ◌*◌, ◌/◌, ◌%◌, ◌^◌, ◌<◌, ◌≤◌, ◌≡◌, ◌≢◌, refl, sym, ap, ◌∙◌, arith, true, false, ◌==◌,
  ltb, lt→ltb, if◌then◌else◌, List, [], ◌∷◌, map, ok, ok-inj, bind_ok, fail, Fault, ◌>>=◌,
  Bool-cases, inl, inr, dec_lt, sub64, add64,
}
use infini_ops.Prelude.Equality.{nat_eq}
use infini_ops.Prelude.Schedule.{Occurs, run_jobs, run_jobs-other}
use infini_ops.Common.GenericUtils.{ceil_div}
use infini_ops.Common.Traits.{contains}
use infini_ops.Common.Dispatcher.Laws.{dispatch_multi_calls}
use infini_ops.DataType.{
  DataType, data_type_code, all_types, int8, int16, int32, int64, uint8, uint16, uint32, uint64,
  float16, bfloat16, float32, float64,
}
use infini_ops.Base.Elementwise.{Elementwise}
use infini_ops.Cuda.Launch.{
  Grid, all_cuda_block_sizes, compute_optimal_block_size, grid_of, thread_index,
}
use infini_ops.Cuda.Elementwise.Threads.{
  IsPlaced, writes, written, run_threads-jobs, covered, not_written, same_index,
}
use infini_ops.Cuda.Elementwise.{run_threads, launch, cuda_add}

block_size_bounds :
    (m : ℕ) → (128 ≤ compute_optimal_block_size m) × (compute_optimal_block_size m ≤ 2048)
unfolding compute_optimal_block_size
block_size_bounds m = ground arith

type_allowed : (d : DataType) → contains (map data_type_code all_types) (data_type_code d) ≡ true
unfolding contains all_types
type_allowed int8 = refl
type_allowed int16 = refl
type_allowed int32 = refl
type_allowed int64 = refl
type_allowed uint8 = refl
type_allowed uint16 = refl
type_allowed uint32 = refl
type_allowed uint64 = refl
type_allowed float16 = refl
type_allowed bfloat16 = refl
type_allowed float32 = refl
type_allowed float64 = refl

size_allowed : (m : ℕ) → contains all_cuda_block_sizes (compute_optimal_block_size m) ≡ true
unfolding contains compute_optimal_block_size
size_allowed m = ground arith

-- The last block, for fewer than 2 ^ 32 blocks.
last_block :
    (n d : ℕ)
    → 0 < n
    → n ≤ 2 ^ 32
    → 0 < d
    → d ≤ 2048
    → (d ≡ 1 → n ≡ 1)
    → (ceil_div n d ≡ ok ((n - 1) / d + 1)) × ((n - 1) / d + 1 < 2 ^ 32)
unfolding ceil_div
last_block n d some small some_d few one =
    let plain : sub64 (add64 n d) 1 ≡ (n - 1) + d = omega arith in
    let busy : (d == 0) ≡ false = ground arith in
    (
      rw (busy, plain) (ap ok (add-div_right (n - 1) some_d)),
      elim (dec_lt 1 d) [
        | yes two ↦
            let q : ℕ = (n - 1) / d in
            let top : q * d ≤ n - 1 = div-mul-le_self (n - 1) d in
            let twice : q * 2 ≤ q * d = mul-le-mul_left q two in omega arith
        | no one_d ↦
            let single : n ≡ 1 = one (omega arith) in
            let below = div-le_self (n - 1) d in omega arith
      ],
    )

-- A grid of that many blocks has a thread for each element.
thread_of :
    (n d i : ℕ)
    → 0 < d
    → n ≤ 2 ^ 32
    → i < n
    → (i / d < (n - 1) / d + 1)
      × (i % d < d)
      × (thread_index (record { block_dim = d; grid_dim = (n - 1) / d + 1 }) (i / d, i % d) ≡ i)
unfolding thread_index
thread_of n d i some_d small lt =
    let q : ℕ = i / d in
    let r : ℕ = i % d in
    let last : ℕ = (n - 1) / d in
    let below : q * d ≤ i = div-mul-le_self i d in
    let fits : q ≤ last = (le-div_iff_mul-le some_d).1 (omega arith) in
    let parts : d * q + r ≡ i = div-add-mod i d in
    let turned : q * d ≡ d * q = mul_comm q d in (omega arith, mod-lt i some_d, omega arith)

-- The grid of a launch.
grid_of_elements :
    (bs n : ℕ)
    → 128 ≤ bs
    → bs ≤ 2048
    → 0 < n
    → n ≤ 2 ^ 32
    → (d : ℕ) × (0 < d) × (grid_of bs n ≡ ok (record { block_dim = d; grid_dim = (n - 1) / d + 1 }))
unfolding grid_of
grid_of_elements bs n large few some small =
    let d : ℕ = if ltb n bs then n else bs in
    let some_d : 0 < d = ground arith in
    let plain : d % 2 ^ 32 ≡ d = ground arith in
    let (ceil, fits) = last_block n d some small some_d (ground arith) (λ single. ground arith) in
    let wide : ((n - 1) / d + 1) % 2 ^ 32 ≡ (n - 1) / d + 1 = omega arith in
    (d, some_d, rw (plain, ceil, wide) refl)

module _ {V : Type 0} (combine : V → V → V) (op : Elementwise) (input other : ℕ → V)
    (max_threads : ℕ) (schedule : Grid → List (ℕ × ℕ)) where
  abbrev bs : ℕ
  bs = compute_optimal_block_size max_threads

  -- The order of a launch has every thread of its grid.
  abbrev pub IsSchedule : Type 0
  IsSchedule =
      (grid : Grid) (b t : ℕ)
      → b < grid.grid_dim
      → t < grid.block_dim
      → Occurs (b, t) (schedule grid)

  -- The launch reaches the grid, with every type.
  cuda_add-grid :
      (out : ℕ → V)
      → cuda_add combine op input other bs schedule out ≡ (
          grid_of bs op.output_size >>= λ grid.
          run_threads combine op input other grid (schedule grid) out)
  unfolding cuda_add launch
  cuda_add-grid out =
      dispatch_multi_calls (λ v. v) (map data_type_code all_types ∷ all_cuda_block_sizes ∷ [])
        (data_type_code op.out_type ∷ bs ∷ [])
        (λ items. grid_of bs op.output_size >>= λ grid.
          run_threads combine op input other grid (schedule grid) out)
        refl
      ∙ rw (type_allowed op.out_type, size_allowed max_threads) refl

  -- Without an element, the number of blocks is divided by 0.
  pub cuda_add-empty :
      (out : ℕ → V)
      → op.output_size ≡ 0
      → cuda_add combine op input other bs schedule out ≡ fail Fault.divided_by_zero
  unfolding grid_of ceil_div
  cuda_add-empty out empty =
      let (large, _) = block_size_bounds max_threads in
      cuda_add-grid out ∙ rw (empty, lt→ltb 0 bs (omega arith)) refl

  -- On at most 2 ^ 32 elements, whose places in the output are apart: whatever the device's limit on
  -- threads and whichever order the threads of the grid take, the call leaves in the place of each
  -- element the combination of the inputs' elements, and writes nowhere else.
  pub cuda_add-elements :
      (input_at other_at out_at : ℕ → ℕ) (out : ℕ → V)
      → IsPlaced op input_at other_at out_at
      → IsSchedule
      → 0 < op.output_size
      → op.output_size ≤ 2 ^ 32
      → (result : ℕ → V) × (cuda_add combine op input other bs schedule out ≡ ok result)
        × ((i : ℕ)
            → i < op.output_size
            → result (out_at i) ≡ combine (input (input_at i)) (other (other_at i)))
        × ((x : ℕ) → ((i : ℕ) → i < op.output_size → x ≢ out_at i) → result x ≡ out x)
  cuda_add-elements input_at other_at out_at out placed fair some small =
      let (large, few) = block_size_bounds max_threads in
      let n = op.output_size in
      let (d, some_d, made) = grid_of_elements bs n large few some small in
      let grid : Grid = record { block_dim = d; grid_dim = (n - 1) / d + 1 } in
      let order = schedule grid in
      let result =
        run_jobs (writes combine op input other input_at other_at out_at placed grid)
          (written combine op input other input_at other_at out_at placed grid) order out in
      (
        result,
        cuda_add-grid out
            ∙ ap (λ g. g >>= λ grid. run_threads combine op input other grid (schedule grid) out)
                made
            ∙ run_threads-jobs combine op input other input_at other_at out_at placed grid order
                out,
        λ i lt.
            let (block, thread, index) = thread_of n d i some_d small lt in
            covered combine op input other input_at other_at out_at placed grid order out
              (i / d, i % d) i lt index (fair grid (i / d) (i % d) block thread),
        λ x free.
            run_jobs-other (writes combine op input other input_at other_at out_at placed grid)
              (written combine op input other input_at other_at out_at placed grid) order out x
              (λ k _.
                not_written combine op input other input_at other_at out_at placed grid k x free),
      )

  -- However many elements there are, a call that returns leaves the places of the elements from
  -- 2 ^ 32 on as they were.
  pub cuda_add-beyond :
      (input_at other_at out_at : ℕ → ℕ) (out result : ℕ → V) (i : ℕ)
      → IsPlaced op input_at other_at out_at
      → cuda_add combine op input other bs schedule out ≡ ok result
      → 2 ^ 32 ≤ i
      → i < op.output_size
      → result (out_at i) ≡ out (out_at i)
  unfolding thread_index
  cuda_add-beyond input_at other_at out_at out result i placed returned far lt =
      let (grid, _, ran) =
        bind_ok (grid_of bs op.output_size) _ (sym (cuda_add-grid out) ∙ returned) in
      let order = schedule grid in
      let covers = writes combine op input other input_at other_at out_at placed grid in
      let values = written combine op input other input_at other_at out_at placed grid in
      let jobs =
        run_threads-jobs combine op input other input_at other_at out_at placed grid order out in
      let same : run_jobs covers values order out ≡ result = ok-inj (sym jobs ∙ ran) in
      ap (λ (f : ℕ → V). f (out_at i)) (sym same)
      ∙ run_jobs-other covers values order out (out_at i) (λ k _.
        elim (Bool-cases (covers k (out_at i))) [
          | inr miss ↦ miss
          | inl hit ↦
              let found =
                same_index combine op input other input_at other_at out_at placed grid k i lt hit in
              absurd (omega (arith, found))
        ])
