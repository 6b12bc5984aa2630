-- ===== src/Lib.antt =====
-- A model of InfiniOps, a library of tensor operators with one interface over many devices.
--
-- A caller describes its buffers as `Tensor` views and calls an operator class. `Operator::Call` builds
-- a cache key from the arguments and looks an operator object up or makes one; `Operator::Make` chooses
-- the specialisation by the device of the first tensor and the implementation index of the
-- configuration, through the dispatcher over compile-time lists. A specialisation's constructor runs
-- the checks of its base class, and its body loops over elements (CPU) or calls a vendor's library
-- (Ascend), with device memory from a pool of workspaces, or launches a kernel of this repository
-- (CUDA, and the custom kernels of Ascend).
--
-- The files, by the code that they model:
--   Prelude        words, Boolean tests, bits, integers, lists, the outcome of a run, and jobs that run
--                  in any order (Schedule)
--   Common         src/common/traits.h (Traits), src/dispatcher.h (Dispatcher),
--                  src/common/constexpr_map.h (ConstexprMap), src/common/generic_utils.h (GenericUtils)
--   Device         src/device.h
--   DataType       src/data_type.h, with its two 16-bit formats (Float16, BFloat16), and the
--                  dispatchers of src/dispatcher.h for element types (Dispatch)
--   Tensor         src/tensor.h and src/tensor.cc
--   Operator       src/operator.h, src/hash.h, src/handle.h, src/config.h: keys (Key), construction
--                  (Make) and the cache (Cache)
--   Base           constructors of src/base: FlashAttention, PagedAttention, MhaFwdKvcache,
--                  MhaVarlenFwd, Linear, Cat, Elementwise (add.h, mul.h, swiglu.h), Gemm (gemm.h,
--                  matmul.h), Normalization (rms_norm.h, add_rms_norm.h), Softmax
--                  (causal_softmax.h, scaled_softmax.h), RotaryEmbedding, Embedding,
--                  ReshapeAndCache, Sampling (top_k_top_p_sampler.h, topk_topp_sampling.h) and
--                  Conversion (cast.h, silu_and_mul.h)
--   Cpu            in src/native/cpu/ops: add/add.h (Elementwise), cast/cast.h and swiglu/swiglu.h
--                  (Conversion), cat/cat.h (Cat), gemm/gemm.h (Gemm) and linear/linear.h (Linear),
--                  with their loops (MatrixLoops), causal_softmax/causal_softmax.h (CausalSoftmax),
--                  rms_norm/rms_norm.h (RmsNorm) and top_k_top_p_sampler/top_k_top_p_sampler.h
--                  (Sampler)
--   Ascend         in src/native/ascend: workspace_pool_.h (WorkspacePool), data_type_.h (AclDtype),
--                  common.h (AclTensor, and its Cache), ops/graph_cleanup_.h (GraphCleanup),
--                  ops/fia_common_.h (Fia), ops/flash_attention/kernel.h (FlashAttention),
--                  atb_common_.h and ops/paged_attention/kernel_atb.h (PagedAttentionAtb),
--                  ops/rotary_embedding/kernel.h (RotaryTables, RotaryOperator),
--                  ops/reshape_and_cache/kernel.h (CacheViews), and the normalisation kernels of
--                  custom/rms_norm and custom/add_rms_norm (Custom: the tiling of the rows, the rounds
--                  and arithmetic of the kernels, the launches of op_host and of
--                  ops/rms_norm/kernel_custom.h, and the weight that
--                  ops/add_rms_norm/kernel_custom.h keeps)
--   Cuda           in src/native/cuda: kernel_commons.cuh and the grids (Launch), the threads of
--                  ops/add and ops/swiglu (Elementwise), and ops/gemm/blas.h (Gemm)
--   Examples       the theorems at concrete inputs
--
-- Functions of the code are functions here, under the same names in snake case. A run ends in an
-- `Outcome`: a result, or the fault that ends it (a failed assert or an abort, an exception, a read
-- out of range, a division by zero). `std::size_t` is a number below 2 ^ 64; `std::ptrdiff_t` and
-- `std::int64_t` are 64-bit patterns, with the wrap-around written out. Loops are structural
-- recursion on the number of rounds to go; the one loop without such a bound, the normalisation of a
-- subnormal half float, runs on fuel 11, which the round trip shows to be enough. Static and
-- thread-local variables are a state that is passed on. The threads of a CUDA grid and the cores of an
-- Ascend kernel are steps that run in any order.
--
-- Parameters stand for what is not in this repository or differs between builds: `std::hash`, the
-- enabled devices and the specialisations, the Ascend runtime, the memory that tensors point to, and
-- the arithmetic on elements. Left out are printing, locks and other threads of the host, the kernels
-- of devices not named above, what the vendors' libraries compute, the PyTorch back end, the bindings,
-- the dispatch wrappers for devices and list aliases, and the CPU operators not named above.
pub mod Prelude
pub mod Common
pub mod Device
pub mod DataType
pub mod Tensor
pub mod Operator
pub mod Ascend
pub mod Base
pub mod Cpu
pub mod Cuda
pub mod Examples
