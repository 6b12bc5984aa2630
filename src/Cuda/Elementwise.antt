-- ===== src/Cuda/Elementwise.antt =====
-- The kernels of src/native/cuda/ops/add/kernel.cuh and src/native/cuda/ops/swiglu/kernel.cuh, and their
-- calls in kernel.h beside them, without the copy of the metadata to the device. The buffers are apart, and hold values of a type `V` under element
-- offsets; `combine` stands for the arithmetic. Threads run side by side: `order` is the order in
-- which their writes take place.
pub mod Threads
pub mod Laws
use infini_ops.Prelude.{
  ℕ, ◌+◌, ◌*◌, Bool, List, [], ◌∷◌, map, ltb, if◌then◌else◌, Outcome, ok, ◌>>=◌,
}
use infini_ops.Prelude.Equality.{nat_eq}
use infini_ops.Common.Dispatcher.{dispatch_multi}
use infini_ops.DataType.{DataType, data_type_code, all_types, all_float_types}
use infini_ops.Base.Elementwise.{Elementwise}
use infini_ops.Cpu.Elementwise.{store}
use infini_ops.Cuda.Launch.{Grid, all_cuda_block_sizes, kernel_offset, grid_of, thread_index}

-- `contiguous ? idx : IndexToOffset(...)`.
unfoldable pub thread_offset : ℕ → ℕ → Bool → List ℕ → List ℕ → Outcome ℕ
thread_offset dims idx contiguous shape strides =
    if contiguous then ok idx else kernel_offset idx dims shape strides

module _ {V : Type 0} (combine : V → V → V) (op : Elementwise) (input other : ℕ → V) where
  -- One thread.
  unfoldable pub run_thread : Grid → ℕ × ℕ → (ℕ → V) → Outcome (ℕ → V)
  unfolding thread_offset thread_index
  run_thread grid thread out =
      let idx = thread_index grid thread in
      if ltb idx op.output_size
      then (do
        out_idx ← thread_offset op.dims idx op.is_out_contiguous op.out_shape op.out_strides
        input_idx ← thread_offset op.dims idx op.is_input_contiguous op.input_shape op.input_strides
        other_idx ← thread_offset op.dims idx op.is_other_contiguous op.other_shape op.other_strides
        ok (store out out_idx (combine (input input_idx) (other other_idx))))
      else ok out

  unfoldable pub run_threads : Grid → List (ℕ × ℕ) → (ℕ → V) → Outcome (ℕ → V)
  unfolding run_thread
  run_threads grid [] out = ok out
  run_threads grid (thread ∷ order) out = do
    out' ← run_thread grid thread out
    run_threads grid order out'

  -- The call: it dispatches on the type of the output and the block size, and launches the grid.
  -- `schedule` gives the order of the grid's threads.
  unfoldable pub launch :
      (types : List DataType) (block_size : ℕ) (schedule : Grid → List (ℕ × ℕ))
      → (ℕ → V)
      → Outcome (ℕ → V)
  unfolding run_threads grid_of
  launch types block_size schedule out =
      dispatch_multi (λ v. v) (map data_type_code types ∷ all_cuda_block_sizes ∷ [])
        (data_type_code op.out_type ∷ block_size ∷ []) 0
        (λ items.
          grid_of block_size op.output_size >>= λ grid. run_threads grid (schedule grid) out)
        []

-- `CudaAdd::operator()`.
unfoldable pub cuda_add :
    {V : Type 0} (combine : V → V → V)
    → Elementwise
    → (input other : ℕ → V) (block_size : ℕ) (schedule : Grid → List (ℕ × ℕ)) → (ℕ → V)
    → Outcome (ℕ → V)
unfolding launch
cuda_add combine op input other block_size schedule out =
    launch combine op input other all_types block_size schedule out

-- `CudaSwiglu::operator()`, where `combine` is that of its kernel.
unfoldable pub cuda_swiglu :
    {V : Type 0} (combine : V → V → V)
    → Elementwise
    → (input gate : ℕ → V) (block_size : ℕ) (schedule : Grid → List (ℕ × ℕ)) → (ℕ → V)
    → Outcome (ℕ → V)
unfolding launch
cuda_swiglu combine op input gate block_size schedule out =
    launch combine op input gate all_float_types block_size schedule out
