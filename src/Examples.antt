-- ===== src/Examples.antt =====
-- The theorems at concrete inputs.
mod Framework
mod Views
mod Types
mod Attention
mod Backends
mod Kernels
mod Rows
mod Descriptors
mod Devices
mod Grids
mod Fused
