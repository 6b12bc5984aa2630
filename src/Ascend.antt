-- ===== src/Ascend.antt =====
-- The host side of the Ascend back end: src/native/ascend.
pub mod WorkspacePool
pub mod Fia
pub mod AclDtype
pub mod AclTensor
pub mod GraphCleanup
pub mod RotaryTables
pub mod RotaryOperator
pub mod CacheViews
pub mod Custom
pub mod FlashAttention
pub mod PagedAttentionAtb
