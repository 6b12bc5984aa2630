-- ===== src/Cpu.antt =====
-- The CPU back end: src/native/cpu.
pub mod Elementwise
pub mod Conversion
pub mod Cat
pub mod MatrixLoops
pub mod Gemm
pub mod Linear
pub mod CausalSoftmax
pub mod Sampler
pub mod RmsNorm
