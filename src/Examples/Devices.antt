-- ===== src/Examples/Devices.antt =====
-- The kernels of the devices at concrete inputs.
use infini_ops.Prelude.{
  ◌%◌, zero, suc, ℕ, ◌+◌, ◌*◌, ◌/◌, ◌<◌, ◌≤◌, ◌≡◌, ◌≢◌, refl, subst, arith, some, List, [], ◌∷◌,
  ◌^◌, ok, fail, Fault, inl, inr,
}
use infini_ops.Prelude.Schedule.{Occurs}
use infini_ops.DataType.{float16, float32, size_of}
use infini_ops.Base.Checks.{divide}
use infini_ops.Cpu.Gemm.Product.{left_sum}
use infini_ops.Ascend.Custom.Tiling.{Tiling, tile_rows, block_rows, row_offset, align_row}
use infini_ops.Ascend.Custom.Tiling.Partition.{tile_rows-partition}
use infini_ops.Ascend.Custom.Rows.{IsInterleaving}
use infini_ops.Ascend.Custom.Kernels.{
  VectorUnit, NormArgs, kernel_element, run_add_rms_norm_kernel, scaled_row, sum_narrow,
}
use infini_ops.Ascend.Custom.Kernels.Laws.{run_add_rms_norm_kernel-rows}
use infini_ops.Ascend.Custom.Launch.{
  NormLaunch, CustomNorm, check_weight, launch_rows, max_dim_length, custom_norm, custom_launch,
  torch_rms_norm,
}
use infini_ops.Ascend.Custom.Launch.Laws.{torch_rms_norm-float, custom_launch-kernel}
use infini_ops.Ascend.Custom.Weights.{
  CastWeight, refresh_weight, custom_rms_norm_call, custom_add_rms_norm_call,
  custom_add_rms_norm_call-IsFresh,
}

-- Five rows on two cores.
tile_rows-partition_example :
    (t : Tiling) × (tile_rows 5 2 ≡ ok t)
    × (t.used_cores ≤ 2)
    × ((b : ℕ) → b < t.used_cores → row_offset t b + block_rows t b ≤ 5)
    × ((r : ℕ)
        → r < 5
        → (b : ℕ) × (b < t.used_cores)
          × (row_offset t b ≤ r)
          × (r < row_offset t b + block_rows t b)
          × ((c : ℕ)
              → c < t.used_cores
              → row_offset t c ≤ r
              → r < row_offset t c + block_rows t c
              → c ≡ b))
tile_rows-partition_example = tile_rows-partition 5 2 (omega arith) (omega arith) (omega arith)

abbrev two_cores : Tiling
two_cores = record { used_cores = 2; former_length = 2; tail_length = 1; former_num = 1 }

two_cores_tiled : tile_rows 3 2 ≡ ok two_cores
unfolding tile_rows
two_cores_tiled = refl

-- The second core runs between the two rounds of the first.
abbrev rounds : List (ℕ × ℕ)
rounds = (0, 0) ∷ (1, 0) ∷ (0, 1) ∷ []

rounds-all : (b row : ℕ) → b < 2 → row < block_rows two_cores b → Occurs (b, row) rounds
unfolding block_rows
rounds-all zero zero core here = inl refl
rounds-all zero (suc zero) core here = inr (inr (inl refl))
rounds-all zero (suc (suc n)) core here = absurd (omega arith)
rounds-all (suc zero) zero core here = inr (inl refl)
rounds-all (suc zero) (suc n) core here = absurd (omega arith)
rounds-all (suc (suc b)) row core here = absurd (omega arith)

abbrev IsRound : ℕ × ℕ → Type 0
IsRound job = (job.0 < 2) × (job.1 < block_rows two_cores job.0)

rounds-only : (job : ℕ × ℕ) → Occurs job rounds → IsRound job
unfolding block_rows
rounds-only job (inl e) = subst IsRound e (omega arith)
rounds-only job (inr (inl e)) = subst IsRound e (omega arith)
rounds-only job (inr (inr (inl e))) = subst IsRound e (omega arith)
rounds-only job (inr (inr (inr none_left))) = elim none_left [ ]

rounds-IsInterleaving : IsInterleaving two_cores rounds
rounds-IsInterleaving = record { all = rounds-all; only = rounds-only }

-- Numbers for elements of both kinds.
abbrev plain_unit : VectorUnit ℕ ℕ
plain_unit = record {
  cast_none = λ x. x;
  cast_rint = λ x. x;
  plus = ◌+◌;
  times = ◌*◌;
  over = ◌/◌;
  sqrt = λ x. x;
  reduce_sum = λ n squares. left_sum ◌+◌ 0 squares n;
  of_int = λ n. n;
  one = 1;
}

abbrev norm_args : NormArgs ℕ
norm_args = record { dim_length = 2; dim_length_align = 8; tiling = two_cores; eps = 1 }

abbrev norm_outs : (ℕ → ℕ) × (ℕ → ℕ)
norm_outs =
    run_add_rms_norm_kernel plain_unit norm_args (λ x. x) (λ x. 2 * x) (λ k. 1) rounds (λ x. 7)
      (λ x. 8)

run_add_rms_norm_kernel-rows_example :
    ((r k : ℕ)
      → r < 3
      → k < 8
      → (norm_outs.0 (r * 8 + k)
          ≡ scaled_row plain_unit norm_args
              (λ k. sum_narrow plain_unit norm_args (λ x. x) (λ x. 2 * x) (r * 8) k)
              (λ k. 1)
              k)
        × (norm_outs.1 (r * 8 + k)
            ≡ sum_narrow plain_unit norm_args (λ x. x) (λ x. 2 * x) (r * 8) k))
    × ((x : ℕ) → 24 ≤ x → (norm_outs.0 x ≡ 7) × (norm_outs.1 x ≡ 8))
run_add_rms_norm_kernel-rows_example =
    run_add_rms_norm_kernel-rows plain_unit norm_args 3 2 (λ x. x) (λ x. 2 * x) (λ k. 1) rounds
      (λ x. 7) (λ x. 8) (omega arith) (omega arith) (omega arith) (omega arith) (omega arith)
      two_cores_tiled rounds-IsInterleaving

-- Half-precision rows of sixteen elements.
abbrev half_launch : NormLaunch
half_launch = record {
  block_dim = 2;
  total_rows = 3;
  dim_length = 16;
  dim_length_align = 16;
  tiling = two_cores;
  dtype_code = 2;
}

half_launched : torch_rms_norm 2 65536 (3 ∷ 16 ∷ []) float16 (16 ∷ []) ≡ ok (some half_launch)
unfolding torch_rms_norm check_weight launch_rows divide size_of align_row max_dim_length tile_rows
half_launched = refl

torch_rms_norm-float_example : kernel_element 2 ≡ float32
torch_rms_norm-float_example =
    torch_rms_norm-float 2 65536 (3 ∷ 16 ∷ []) float16 (16 ∷ []) half_launch half_launched

abbrev half_norm : CustomNorm
half_norm = record { dtype = float16; dim = 16; dim_length_align = 16; total_rows = 6 }

half_norm_made : custom_norm float16 16 3 2 ≡ ok half_norm
unfolding custom_norm size_of align_row
half_norm_made = refl

custom_launch-kernel_example :
    (0 < 6
      → 6 < 2 ^ 63
      → (l : NormLaunch) × (custom_launch half_norm ≡ ok l)
        × (l.tiling.used_cores ≤ 40)
        × (kernel_element l.dtype_code ≡ float16)
        × (l.dim_length ≡ 16)
        × (l.dim_length_align ≡ 16)
        × ((bytes : ℕ) × (size_of float16 ≡ ok bytes) × ((l.dim_length * bytes) % 32 ≡ 0)))
    × (◌≡◌ {A = ℕ} 6 0 → custom_launch half_norm ≡ fail Fault.divided_by_zero)
custom_launch-kernel_example = custom_launch-kernel float16 16 3 2 half_norm half_norm_made

-- The weight at address 40 was cast.
abbrev fresh_cast : CastWeight ℕ
fresh_cast = record { last_weight_ptr = 40; weight_fp32 = 41 }

abbrev call_launch : NormLaunch
call_launch = record {
  block_dim = 6;
  total_rows = 6;
  dim_length = 16;
  dim_length_align = 16;
  tiling = record { used_cores = 6; former_length = 1; tail_length = 0; former_num = 6 };
  dtype_code = 8;
}

call_returned :
    custom_add_rms_norm_call (λ x. x + 1) (λ address. address) half_norm fresh_cast 50
    ≡ ok (record { last_weight_ptr = 50; weight_fp32 = 51 }, 51, call_launch)
unfolding custom_add_rms_norm_call refresh_weight custom_launch tile_rows
call_returned = refl

custom_add_rms_norm_call-IsFresh_example :
    (custom_rms_norm_call (λ x. x + 1) (λ address. address) half_norm 50 ≡ ok (51, call_launch))
    × (◌≢◌ {A = ℕ} 50 0 → 51 ≡ 50 + 1)
custom_add_rms_norm_call-IsFresh_example =
    custom_add_rms_norm_call-IsFresh (λ x. x + 1) (λ address. address) half_norm fresh_cast
      (record { last_weight_ptr = 50; weight_fp32 = 51 }) 50 51 call_launch (λ _. refl)
      (omega arith) call_returned
