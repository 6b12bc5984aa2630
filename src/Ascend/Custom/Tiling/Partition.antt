-- ===== src/Ascend/Custom/Tiling/Partition.antt =====
-- The cores' ranges of rows, one after another.
use native.Mathlib.Nat.{mul-le-mul_right, mul_comm, add-mul}
use infini_ops.Prelude.{
  ℕ, zero, suc, ◌+◌, ◌-◌, ◌*◌, ◌^◌, ◌<◌, ◌≤◌, ◌≡◌, ap, sym, subst, ◌∙◌, arith, ok, dec_lt, ltb,
  sub64, false,
}
use infini_ops.Ascend.Custom.Tiling.{min, Tiling, tile_rows, block_rows, row_offset}
use infini_ops.Ascend.Custom.Tiling.Laws.{IsTiling, tile_rows-IsTiling}

-- A value between the first and the last of a sequence of bounds lies between two neighbours.
between :
    (g : ℕ → ℕ) (n r : ℕ) → g 0 ≤ r → r < g n → (b : ℕ) × (b < n) × (g b ≤ r) × (r < g (b + 1))
between g zero r low high = absurd (omega arith)
between g (suc n) r low high = elim (dec_lt r (g n)) [
  | yes below ↦ let (b, lt, at, before) = between g n r low below in (b, omega arith, at, before)
  | no above ↦ (n, omega arith, omega arith, subst (λ m. r < g m) (omega arith) high)
]

whole_tail : (n b q : ℕ) → n ≤ b → b * q ≡ n * q + (b - n) * q
whole_tail n b q few = ap (λ k. k * q) (omega arith) ∙ add-mul n (b - n) q

module _ (total cores : ℕ) (t : Tiling) (tiling : IsTiling total cores t)
    (small : total < 2 ^ 63) where
  -- The rows of the cores before `b`.
  abbrev start : ℕ → ℕ
  start b = b * t.tail_length + min b t.former_num

  step : (b : ℕ) → start (b + 1) ≡ start b + block_rows t b
  unfolding block_rows
  step b =
      let former = tiling.former in
      let next : (b + 1) * t.tail_length ≡ b * t.tail_length + t.tail_length = grind arith in
      ground arith

  before_total : (b : ℕ) → b ≤ t.used_cores → b * t.tail_length + t.former_num ≤ total
  before_total b few =
      let rows = tiling.total_rows in
      let whole : b * t.tail_length ≤ t.used_cores * t.tail_length =
        mul-le-mul_right t.tail_length few in
      let turned : t.used_cores * t.tail_length ≡ t.tail_length * t.used_cores = grind arith in
      omega arith

  start-total : start t.used_cores ≡ total
  start-total =
      let rows = tiling.total_rows in
      let all = tiling.all_former in
      let turned : t.used_cores * t.tail_length ≡ t.tail_length * t.used_cores = grind arith in
      ground arith

  start_monotone : (b c : ℕ) → b ≤ c → start b ≤ start c
  start_monotone b c few =
      let rows : b * t.tail_length ≤ c * t.tail_length = mul-le-mul_right t.tail_length few in
      ground arith

  few_cores : t.used_cores < 2 ^ 63
  few_cores = let used = tiling.used in ground arith

  offset-start : (b : ℕ) → b < t.used_cores → row_offset t b ≡ start b
  unfolding row_offset
  offset-start b lt =
      let former = tiling.former in
      let bound = before_total b (omega arith) in
      elim (dec_lt b t.former_num) [
        | yes early ↦
            let rows : t.former_length * b ≡ b * t.tail_length + b =
              ap (λ n. n * b) former ∙ grind arith in
            ground arith
        | no late ↦
            let rows : t.former_length * t.former_num
                ≡ t.former_num * t.tail_length + t.former_num =
              ap (λ n. n * t.former_num) former ∙ grind arith in
            let few = few_cores in
            let d : ℕ = b - t.former_num in
            let plain : sub64 b t.former_num ≡ d = omega arith in
            let rest : t.tail_length * sub64 b t.former_num ≡ d * t.tail_length =
              ap (λ n. t.tail_length * n) plain ∙ mul_comm t.tail_length d in
            let parts : b * t.tail_length ≡ t.former_num * t.tail_length + d * t.tail_length =
              whole_tail t.former_num b t.tail_length (omega arith) in
            let other : ltb b t.former_num ≡ false = ground arith in
            let least : min b t.former_num ≡ t.former_num = ground arith in
            rw (other, rest, rows, least) (omega arith)
      ]

  same_core :
      (r b c : ℕ)
      → b < t.used_cores
      → c < t.used_cores
      → start b ≤ r
      → r < start (b + 1)
      → row_offset t c ≤ r
      → r < row_offset t c + block_rows t c
      → c ≡ b
  same_core r b c core core' at before at' before' =
      let place = offset-start c core' in
      let next = step c in
      elim (dec_lt b c) [
        | yes later ↦ absurd (omega (arith, start_monotone (b + 1) c (omega arith)))
        | no not_later ↦ elim (dec_lt c b) [
          | yes earlier ↦ absurd (omega (arith, start_monotone (c + 1) b (omega arith)))
          | no not_earlier ↦ omega arith
        ]
      ]

  rows_below : (b : ℕ) → b < t.used_cores → start b + block_rows t b ≤ total
  rows_below b lt =
      let top = start_monotone (b + 1) t.used_cores (omega arith) in
      let next = step b in let all = start-total in omega arith

  pub ranges_partition :
      ((b : ℕ) → b < t.used_cores → row_offset t b + block_rows t b ≤ total)
      × ((r : ℕ)
          → r < total
          → (b : ℕ) × (b < t.used_cores)
            × (row_offset t b ≤ r)
            × (r < row_offset t b + block_rows t b)
            × ((c : ℕ)
                → c < t.used_cores
                → row_offset t c ≤ r
                → r < row_offset t c + block_rows t c
                → c ≡ b))
  ranges_partition = (
    λ b lt. subst (λ n. n + block_rows t b ≤ total) (sym (offset-start b lt)) (rows_below b lt),
    λ r lt.
        let (b, core, at, before) =
          between start t.used_cores r (ground arith) (subst (λ n. r < n) (sym start-total) lt) in
        let place = offset-start b core in
        let next = step b in
        (
          b,
          core,
          omega arith,
          omega arith,
          λ c core' at' before'. same_core r b c core core' at before at' before',
        ),
  )

-- At least one row, at least one core, and fewer than 2 ^ 63 rows can be distributed: over at most as
-- many cores as there are, in ranges that lie within the rows, and so that each row lies in the range
-- of one core, and of no other.
pub tile_rows-partition :
    (total cores : ℕ)
    → 0 < total
    → 0 < cores
    → total < 2 ^ 63
    → (t : Tiling) × (tile_rows total cores ≡ ok t)
      × (t.used_cores ≤ cores)
      × ((b : ℕ) → b < t.used_cores → row_offset t b + block_rows t b ≤ total)
      × ((r : ℕ)
          → r < total
          → (b : ℕ) × (b < t.used_cores)
            × (row_offset t b ≤ r)
            × (r < row_offset t b + block_rows t b)
            × ((c : ℕ)
                → c < t.used_cores
                → row_offset t c ≤ r
                → r < row_offset t c + block_rows t c
                → c ≡ b))
tile_rows-partition total cores some_rows some_cores small =
    let (t, tiled, tiling) = tile_rows-IsTiling total cores some_rows some_cores small in
    let (inside, owner) = ranges_partition total cores t tiling small in
    (t, tiled, subst (λ n. n ≤ cores) (sym tiling.used) (ground arith), inside, owner)
