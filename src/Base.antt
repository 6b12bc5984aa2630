-- ===== src/Base.antt =====
-- The constructors of the operator classes of src/base: what each accepts, and what it derives.
pub mod Checks
pub mod FlashAttention
pub mod PagedAttention
pub mod MhaFwdKvcache
pub mod MhaVarlenFwd
pub mod Linear
pub mod Elementwise
pub mod Cat
pub mod Gemm
pub mod Normalization
pub mod Softmax
pub mod RotaryEmbedding
pub mod Embedding
pub mod ReshapeAndCache
pub mod Sampling
pub mod Conversion
