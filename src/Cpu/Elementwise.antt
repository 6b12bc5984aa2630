-- ===== src/Cpu/Elementwise.antt =====
-- `Compute` of src/native/cpu/ops/add/add.h; src/native/cpu/ops/mul/mul.h differs in the operator
-- alone. The three buffers are apart, and hold values of a type `V` under element offsets; `combine`
-- stands for the casts and the sum. The rounds do not depend on one another, so their order, which
-- OpenMP leaves open, is taken to be ascending.
pub mod Laws
use infini_ops.Prelude.{ℕ, zero, suc, ◌+◌, Bool, List, ◌==◌, if◌then◌else◌, Outcome, ok, ◌>>=◌}
use infini_ops.Common.GenericUtils.{index_to_offset}
use infini_ops.Base.Elementwise.{Elementwise}

-- The lambda `get_idx`.
unfoldable pub get_idx : ℕ → ℕ → Bool → List ℕ → List ℕ → Outcome ℕ
get_idx dims i is_contig shape strides =
    if is_contig then ok i else index_to_offset i dims shape strides

-- A write.
abbrev pub store : {V : Type 0} → (ℕ → V) → ℕ → V → ℕ → V
store out k v j = if j == k then v else out j

module _ {V : Type 0} (combine : V → V → V) (op : Elementwise) (input other : ℕ → V) where
  -- The loop from element `i`, with `rounds` elements to go.
  unfoldable pub compute_from : ℕ → ℕ → (ℕ → V) → Outcome (ℕ → V)
  unfolding get_idx
  compute_from zero i out = ok out
  compute_from (suc rounds) i out = do
    input_idx ← get_idx op.dims i op.is_input_contiguous op.input_shape op.input_strides
    other_idx ← get_idx op.dims i op.is_other_contiguous op.other_shape op.other_strides
    out_idx ← get_idx op.dims i op.is_out_contiguous op.out_shape op.out_strides
    compute_from rounds (i + 1) (store out out_idx (combine (input input_idx) (other other_idx)))

  unfoldable pub compute : (ℕ → V) → Outcome (ℕ → V)
  unfolding compute_from
  compute out = compute_from op.output_size 0 out
