-- ===== src/Ascend/Custom/Tiling/Laws.antt =====
-- Every row goes to one core.
use native.Mathlib.Nat.{add-div_right, div-le_self, div-add-mod, mod-lt, mul_comm}
use infini_ops.Prelude.{
  ℕ, ◌+◌, ◌-◌, ◌*◌, ◌/◌, ◌%◌, ◌^◌, ◌<◌, ◌≤◌, ◌≡◌, refl, ap, sym, subst, ◌∙◌, arith, ok, ok-inj,
  false, ◌==◌, mul64, add64, sub64,
}
use infini_ops.Ascend.Custom.Tiling.{min, Tiling, tile_rows}

-- `q` whole rounds of the cores, and between one and as many rows as cores for the last.
pub record IsTiling (total cores : ℕ) (t : Tiling) : Type 0 where
  pub used : t.used_cores ≡ min total cores
  pub former : t.former_length ≡ t.tail_length + 1
  pub some_former : 0 < t.former_num
  pub all_former : t.former_num ≤ t.used_cores
  pub total_rows : t.tail_length * t.used_cores + t.former_num ≡ total

quotient : (n u : ℕ) → 0 < n → 0 < u → n + u < 2 ^ 64 → sub64 (add64 n u) 1 / u ≡ (n - 1) / u + 1
quotient n u some_rows some_cores small =
    let plain : sub64 (add64 n u) 1 ≡ (n - 1) + u = omega arith in
    ap (λ k. k / u) plain ∙ add-div_right (n - 1) some_cores

min_bounds : (a b : ℕ) → 0 < a → 0 < b → (0 < min a b) × (min a b ≤ a) × (min a b ≤ b)
min_bounds a b some_a some_b = ground arith

module _ (total u : ℕ) (some_rows : 0 < total) (some_cores : 0 < u) (few : u ≤ total)
    (small : total < 2 ^ 63) where
  abbrev rounds : ℕ
  rounds = (total - 1) / u

  abbrev tiles : Tiling
  tiles =
      let former_length = sub64 (add64 total u) 1 / u in
      let tail_length = sub64 former_length 1 in
      record {
        used_cores = u;
        former_length = former_length;
        tail_length = tail_length;
        former_num = sub64 total (mul64 tail_length u);
      }

  former-rounds : tiles.former_length ≡ rounds + 1
  former-rounds = quotient total u some_rows some_cores (omega arith)

  tail-rounds : tiles.tail_length ≡ rounds
  tail-rounds =
      let below : rounds ≤ total - 1 = div-le_self (total - 1) u in
      ap (λ n. sub64 n 1) former-rounds ∙ omega arith

  -- The rows that the rounds leave over, less one.
  left_over : (u * rounds + (total - 1) % u ≡ total - 1) × ((total - 1) % u < u)
  left_over = (div-add-mod (total - 1) u, mod-lt (total - 1) some_cores)

  former_num-rounds : tiles.former_num ≡ (total - 1) % u + 1
  former_num-rounds =
      let (parts, below) = left_over in
      let p : ℕ = u * rounds in
      let r : ℕ = (total - 1) % u in
      let whole : mul64 tiles.tail_length u ≡ p =
        ap (λ n. mul64 n u) tail-rounds ∙ ap (λ n. n % 2 ^ 64) (mul_comm rounds u) ∙ omega arith in
      ap (sub64 total) whole ∙ omega arith

pub tile_rows-IsTiling :
    (total cores : ℕ)
    → 0 < total
    → 0 < cores
    → total < 2 ^ 63
    → (t : Tiling) × (tile_rows total cores ≡ ok t) × IsTiling total cores t
unfolding tile_rows
tile_rows-IsTiling total cores some_rows some_cores small =
    let u = min total cores in
    let (some_used, few, _) = min_bounds total cores some_rows some_cores in
    let busy : (u == 0) ≡ false = ground arith in
    let (parts, below) = left_over total u some_rows some_used few small in
    let tail = tail-rounds total u some_rows some_used few small in
    let former = former-rounds total u some_rows some_used few small in
    let num = former_num-rounds total u some_rows some_used few small in
    (
      tiles total u some_rows some_used few small,
      rw busy refl,
      record {
        used = refl;
        former = former ∙ ap (λ n. n + 1) (sym tail);
        some_former = subst (λ n. 0 < n) (sym num) (omega arith);
        all_former = subst (λ n. n ≤ u) (sym num) (omega arith);
        total_rows =
            (λ i. tail i * u + num i)
            ∙ ap (λ n. n + ((total - 1) % u + 1)) (mul_comm ((total - 1) / u) u)
            ∙ omega arith;
      },
    )

pub tiling_of :
    (total cores : ℕ) (t : Tiling)
    → 0 < total
    → 0 < cores
    → total < 2 ^ 63
    → tile_rows total cores ≡ ok t
    → IsTiling total cores t
tiling_of total cores t some_rows some_cores small tiled =
    let (t', tiled', tiling) = tile_rows-IsTiling total cores some_rows some_cores small in
    subst (IsTiling total cores) (ok-inj (sym tiled' ∙ tiled)) tiling
