-- ===== src/Cuda.antt =====
-- The CUDA back end: src/native/cuda.
pub mod Launch
pub mod Elementwise
pub mod Gemm
