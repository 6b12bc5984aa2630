-- ===== src/Ascend/Custom.antt =====
-- The normalisation kernels under src/native/ascend/custom, and the operators that launch them.
pub mod Tiling
pub mod Rows
pub mod Kernels
pub mod Launch
pub mod Weights
