-- ===== src/Ascend/Custom/Rows/Laws.antt =====
-- What the cores leave in the output.
use native.Mathlib.Nat.{mul-div_cancel, add-mul}
use infini_ops.Prelude.{
  ℕ, ◌+◌, ◌-◌, ◌*◌, ◌/◌, ◌%◌, ◌^◌, ◌≡◌, ◌<◌, ◌≤◌, ◌↔◌, sym, ap, ◌∙◌, arith, true, false, List,
  mul64, Bool-cases, inl, inr,
}
use infini_ops.Prelude.Schedule.{run_jobs-covered, run_jobs-other}
use infini_ops.Cpu.MatrixLoops.RowMajor.{next_row, parts_unique}
use infini_ops.Ascend.Custom.Tiling.{Tiling, block_rows, row_offset}
use infini_ops.Ascend.Custom.Tiling.Laws.{IsTiling}
use infini_ops.Ascend.Custom.Tiling.Partition.{ranges_partition}
use infini_ops.Ascend.Custom.Rows.{row_base, copied, is_copied, computed, process, IsInterleaving}

copied_all : (align bytes : ℕ) → 0 < bytes → align * bytes < 2 ^ 32 → copied align bytes ≡ align
unfolding copied
copied_all align bytes some_bytes small =
    let p : ℕ = align * bytes in
    let plain : mul64 align bytes % 2 ^ 32 ≡ align * bytes = omega arith in
    ap (λ n. n / bytes) plain ∙ mul-div_cancel align some_bytes

module _ (total cores align bytes : ℕ) (t : Tiling) (tiling : IsTiling total cores t)
    (some_align : 0 < align) (some_bytes : 0 < bytes) (short : align * bytes < 2 ^ 32)
    (small : total * align < 2 ^ 63) where
  few_rows : total < 2 ^ 63
  few_rows = grind arith

  -- A row of a core starts where the row of that number does.
  row_base-place :
      (b row : ℕ)
      → b < t.used_cores
      → row < block_rows t b
      → (row_base t align (b, row) ≡ (row_offset t b + row) * align)
        × (row_offset t b + row < total)
  unfolding row_base
  row_base-place b row core here =
      let inside = (ranges_partition total cores t tiling few_rows).0 b core in
      let top : (row_offset t b + row) * align + align ≤ total * align =
        next_row (row_offset t b + row) total align (omega arith) in
      let parts = add-mul (row_offset t b) row align in
      let p : ℕ = row_offset t b * align in let q : ℕ = row * align in (omega arith, omega arith)

  -- Where a row of a core is copied to.
  is_copied-place :
      (b row x : ℕ)
      → b < t.used_cores
      → row < block_rows t b
      → (is_copied t align bytes (b, row) x ≡ true)
        ↔ (((row_offset t b + row) * align ≤ x) × (x < (row_offset t b + row) * align + align))
  unfolding is_copied
  is_copied-place b row x core here =
      let base = (row_base-place b row core here).0 in
      let length = copied_all align bytes some_bytes short in
      rw (base, length)
        (
          (λ h. (ground arith, ground arith)),
          (λ (h : ((row_offset t b + row) * align ≤ x)
                × (x < (row_offset t b + row) * align + align)).
              ground arith),
        )

  outside :
      (x : ℕ)
      → total * align ≤ x
      → (j : ℕ × ℕ) → (j.0 < t.used_cores) × (j.1 < block_rows t j.0)
      → is_copied t align bytes j x ≡ false
  outside x above (b, row) (core, lt) = elim (Bool-cases (is_copied t align bytes (b, row) x)) [
    | inr miss ↦ miss
    | inl hit ↦
        let (low, high) = (is_copied-place b row x core lt).0 hit in
        let (_, inside) = row_base-place b row core lt in
        absurd (omega (arith, next_row (row_offset t b + row) total align inside))
  ]

  module _ {T : Type 0} (compute : ℕ → ℕ → T) (order : List (ℕ × ℕ))
      (whole : IsInterleaving t order) where
    -- Whatever row is copied to a place is the one that has the place.
    same_value :
        (r k : ℕ) (j : ℕ × ℕ)
        → k < align
        → (j.0 < t.used_cores) × (j.1 < block_rows t j.0)
        → is_copied t align bytes j (r * align + k) ≡ true
        → computed t align compute j (r * align + k) ≡ compute (r * align) k
    unfolding computed
    same_value r k (b, row) here (core, lt) hit =
        let x : ℕ = r * align + k in
        let (low, high) = (is_copied-place b row x core lt).0 hit in
        let r' : ℕ = row_offset t b + row in
        let k' : ℕ = x - r' * align in
        let (same, _) = parts_unique align r k r' k' here (omega arith) (omega arith) in
        let start : row_base t align (b, row) ≡ r * align =
          (row_base-place b row core lt).0 ∙ ap (λ n. n * align) (sym same) in
        (λ i. compute (start i) (x - start i)) ∙ ap (compute (r * align)) (omega arith)

    -- With at least one element to a row, elements of at least one byte, rows of fewer than 2 ^ 32
    -- bytes and fewer than 2 ^ 63 elements in all: in whichever order the cores take their rounds,
    -- each row of the output is what the kernel computes for the row of that number.
    pub process-row :
        (out : ℕ → T) (r k : ℕ)
        → r < total
        → k < align
        → process t align bytes compute order out (r * align + k) ≡ compute (r * align) k
    unfolding process
    process-row out r k row_here here =
        let (b, core, at, before, _) =
          (ranges_partition total cores t tiling few_rows).1 r row_here in
        let row : ℕ = r - row_offset t b in
        let lt : row < block_rows t b = omega arith in
        let x : ℕ = r * align + k in
        let start : (row_offset t b + row) * align ≡ r * align =
          ap (λ n. n * align) (omega arith) in
        let hit : is_copied t align bytes (b, row) x ≡ true =
          (is_copied-place b row x core lt).1 (omega arith, omega arith) in
        let last = same_value r k (b, row) here (core, lt) hit in
        run_jobs-covered (is_copied t align bytes) (computed t align compute) order out (b, row) x
          (λ j o covers. same_value r k j here (whole.only j o) covers ∙ sym last)
          (whole.all b row core lt) hit
        ∙ last

    pub process-other :
        (out : ℕ → T) (x : ℕ)
        → total * align ≤ x
        → process t align bytes compute order out x ≡ out x
    unfolding process
    process-other out x above =
        run_jobs-other (is_copied t align bytes) (computed t align compute) order out x
          (λ j o. outside x above j (whole.only j o))
