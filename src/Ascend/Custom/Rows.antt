-- ===== src/Ascend/Custom/Rows.antt =====
-- `Process` of the kernels under src/native/ascend/custom: a core computes its rows one after another,
-- and copies each to its place in the output. Cores run side by side: the rounds of their loops are
-- interleaved in some order, in which each is one step. `compute` gives the elements of the row that
-- starts at an offset; buffers are apart and hold elements under element offsets.
pub mod Laws
use infini_ops.Prelude.{
  ℕ, ◌+◌, ◌-◌, ◌*◌, ◌/◌, ◌%◌, ◌^◌, ◌≡◌, ◌<◌, Bool, ◌&&◌, leb, ltb, if◌then◌else◌, List, mul64,
}
use infini_ops.Prelude.Schedule.{Occurs, run_jobs}
use infini_ops.Ascend.Custom.Tiling.{Tiling, block_rows, row_offset}

-- The elements of a copy, whose length in bytes is 32 bits wide.
unfoldable pub copied : (align element_bytes : ℕ) → ℕ
copied align element_bytes = mul64 align element_bytes % 2 ^ 32 / element_bytes

module _ (t : Tiling) (align : ℕ) where
  -- The offset of a row of a core: the core's part of the buffer starts at its first row.
  unfoldable pub row_base : ℕ × ℕ → ℕ
  row_base (block_idx, row) = mul64 (row_offset t block_idx) align + mul64 row align

  -- `CopyOut` of a row writes there.
  unfoldable pub is_copied : ℕ → ℕ × ℕ → ℕ → Bool
  unfolding row_base copied
  is_copied element_bytes job x =
      leb (row_base job) x && ltb x (row_base job + copied align element_bytes)

  -- The element that `Compute` left for the place.
  unfoldable pub computed : {T : Type 0} → (ℕ → ℕ → T) → ℕ × ℕ → ℕ → T
  unfolding row_base
  computed compute job x = compute (row_base job) (x - row_base job)

  unfoldable pub process : {T : Type 0} → ℕ → (ℕ → ℕ → T) → List (ℕ × ℕ) → (ℕ → T) → ℕ → T
  unfolding is_copied computed run_jobs
  process element_bytes compute order out =
      run_jobs (is_copied element_bytes) (computed compute) order out

-- An interleaving has every row of every core, and no other.
pub record IsInterleaving (t : Tiling) (order : List (ℕ × ℕ)) : Type 0 where
  pub all : (b row : ℕ) → b < t.used_cores → row < block_rows t b → Occurs (b, row) order
  pub only :
      (job : ℕ × ℕ) → Occurs job order → (job.0 < t.used_cores) × (job.1 < block_rows t job.0)
