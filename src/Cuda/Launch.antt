-- ===== src/Cuda/Launch.antt =====
-- src/native/cuda/kernel_commons.cuh, and the grid of the elementwise kernels in
-- src/native/cuda/ops/add/kernel.h and src/native/cuda/ops/swiglu/kernel.h. `dim3` and the built-in
-- variables of a thread are 32 bits wide.
use infini_ops.Prelude.{
  ℕ, ◌+◌, ◌*◌, ◌%◌, ◌^◌, ltb, leb, if◌then◌else◌, List, [], ◌∷◌, Outcome, ok, ◌>>=◌,
}
use infini_ops.Common.GenericUtils.{ceil_div, offset_loop}

-- `AllCudaBlockSizes`.
abbrev pub all_cuda_block_sizes : List ℕ
all_cuda_block_sizes = 128 ∷ 256 ∷ 512 ∷ 1024 ∷ 2048 ∷ []

-- `ComputeOptimalBlockSize`.
unfoldable pub compute_optimal_block_size : ℕ → ℕ
compute_optimal_block_size max_threads_per_block =
    if leb 2048 max_threads_per_block
    then 2048
    else if leb 1024 max_threads_per_block
    then 1024
    else if leb 512 max_threads_per_block
    then 512
    else if leb 256 max_threads_per_block
    then 256
    else 128

-- `IndexToOffset` of the device.
unfoldable pub kernel_offset : (flat_index ndim : ℕ) (shape strides : List ℕ) → Outcome ℕ
unfolding offset_loop
kernel_offset flat_index ndim shape strides = offset_loop shape strides ndim flat_index 0

pub record Grid : Type 0 where
  pub block_dim : ℕ
  pub grid_dim : ℕ

-- `blockDims` and `gridDims`, for a block size that is not negative.
unfoldable pub grid_of : (block_size output_size : ℕ) → Outcome Grid
unfolding ceil_div
grid_of block_size output_size = do
  let block_dim = (if ltb output_size block_size then output_size else block_size) % 2 ^ 32
  blocks ← ceil_div output_size block_dim
  ok (record { block_dim = block_dim; grid_dim = blocks % 2 ^ 32 })

-- `blockIdx.x * blockDim.x + threadIdx.x`, before it is widened.
unfoldable pub thread_index : Grid → ℕ × ℕ → ℕ
thread_index grid (block, thread) = (block * grid.block_dim + thread) % 2 ^ 32
