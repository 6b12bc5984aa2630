-- ===== src/Cpu/Conversion.antt =====
-- `Compute` of src/native/cpu/ops/cast/cast.h, and of src/native/cpu/ops/swiglu/swiglu.h, whose loop is
-- that of src/native/cpu/ops/add/add.h. The buffers are apart; the casts and the functions on numbers
-- are parameters. The order of the rounds is taken to be ascending.
pub mod Laws
use infini_ops.Prelude.{ℕ, zero, suc, ◌+◌, Outcome, ok, ◌>>=◌}
use infini_ops.Base.Elementwise.{Elementwise}
use infini_ops.Base.Conversion.{Cast}
use infini_ops.Cpu.Elementwise.{get_idx, store, compute}

module _ {A B : Type 0} (convert : A → B) (op : Cast) (input : ℕ → A) where
  -- The loop from element `i`, with `rounds` elements to go.
  unfoldable pub cast_from : (rounds i : ℕ) → (ℕ → B) → Outcome (ℕ → B)
  unfolding get_idx
  cast_from zero i out = ok out
  cast_from (suc rounds) i out = do
    in_idx ← get_idx op.dims i op.is_input_contiguous op.input_shape op.input_strides
    out_idx ← get_idx op.dims i op.is_out_contiguous op.out_shape op.out_strides
    cast_from rounds (i + 1) (store out out_idx (convert (input in_idx)))

  unfoldable pub run_cast : (ℕ → B) → Outcome (ℕ → B)
  unfolding cast_from
  run_cast out = cast_from op.output_size 0 out

-- The numbers of a type `T` and of the type `C` that is computed with.
pub record SwigluArithmetic (T C : Type 0) : Type 0 where
  pub to_compute : T → C
  pub of_compute : C → T
  pub times : C → C → C
  pub sigmoid : C → C

-- `swish_gate`, and what the loop writes.
unfoldable pub swiglu_value : {T C : Type 0} → SwigluArithmetic T C → T → T → T
swiglu_value f input gate =
    let gate_val = f.to_compute gate in
    let swish_gate = f.times gate_val (f.sigmoid gate_val) in
    f.of_compute (f.times (f.to_compute input) swish_gate)

unfoldable pub run_swiglu :
    {T C : Type 0} → SwigluArithmetic T C → Elementwise → (input gate out : ℕ → T) → Outcome (ℕ → T)
unfolding compute
run_swiglu f op input gate out = compute (swiglu_value f) op input gate out
