-- ===== src/Ascend/Custom/Kernels/Laws.antt =====
-- The two normalisations, row by row.
use infini_ops.Prelude.{ℕ, ◌+◌, ◌*◌, ◌^◌, ◌<◌, ◌≤◌, ◌≡◌, List, ok, arith}
use infini_ops.Ascend.Custom.Tiling.{tile_rows}
use infini_ops.Ascend.Custom.Tiling.Laws.{tiling_of}
use infini_ops.Ascend.Custom.Rows.{IsInterleaving}
use infini_ops.Ascend.Custom.Rows.Laws.{process-row, process-other}
use infini_ops.Ascend.Custom.Kernels.{
  VectorUnit, NormArgs, scaled_row, sum_narrow, run_add_rms_norm_kernel, add_norm_narrow,
  add_norm_residual,
}

-- For at least one row, core and element of a row, rows of fewer than 2 ^ 32 bytes and fewer than
-- 2 ^ 63 elements in all, distributed over the cores: in whichever order the cores take their rounds,
-- the residual output of 16-bit elements is the rounded sum of the inputs, the output is each row of
-- the sums, not rounded, times its scale and the weight, and nothing else is written.
pub run_add_rms_norm_kernel-rows :
    {T F : Type 0} (v : VectorUnit T F) (args : NormArgs F) (total cores : ℕ)
    (input residual : ℕ → T) (weight : ℕ → F) (order : List (ℕ × ℕ)) (out residual_out : ℕ → T)
    → 0 < total
    → 0 < cores
    → 0 < args.dim_length_align
    → args.dim_length_align * 2 < 2 ^ 32
    → total * args.dim_length_align < 2 ^ 63
    → tile_rows total cores ≡ ok args.tiling
    → IsInterleaving args.tiling order
    → (let outs = run_add_rms_norm_kernel v args input residual weight order out residual_out in
        let sums : ℕ → ℕ → F =
          λ r k. sum_narrow v args input residual (r * args.dim_length_align) k in
        ((r k : ℕ)
          → r < total
          → k < args.dim_length_align
          → (outs.0 (r * args.dim_length_align + k)
              ≡ v.cast_rint (scaled_row v args (sums r) weight k))
            × (outs.1 (r * args.dim_length_align + k) ≡ v.cast_rint (sums r k)))
        × ((x : ℕ)
            → total * args.dim_length_align ≤ x
            → (outs.0 x ≡ out x) × (outs.1 x ≡ residual_out x)))
unfolding run_add_rms_norm_kernel add_norm_narrow add_norm_residual
run_add_rms_norm_kernel-rows v args total cores input residual weight order out residual_out
      some_rows some_cores some_align short small tiled whole =
    let align = args.dim_length_align in
    let few : total < 2 ^ 63 = grind arith in
    let tiling = tiling_of total cores args.tiling some_rows some_cores few tiled in
    let two : 0 < 2 = omega arith in
    let y = add_norm_narrow v args input residual weight in
    let x_out = add_norm_residual v args input residual in
    (
      λ r k here inside. (
        process-row total cores align 2 args.tiling tiling some_align two short small y order whole
            out r k here inside,
        process-row total cores align 2 args.tiling tiling some_align two short small x_out order
            whole residual_out r k here inside,
      ),
      λ x above. (
        process-other total cores align 2 args.tiling tiling some_align two short small y order
            whole out x above,
        process-other total cores align 2 args.tiling tiling some_align two short small x_out order
            whole residual_out x above,
      ),
    )
