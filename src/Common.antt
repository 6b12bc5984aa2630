-- ===== src/Common.antt =====
-- src/common: compile-time lists, the dispatch over them, and constant maps.
pub mod Traits
pub mod Dispatcher
pub mod ConstexprMap
pub mod GenericUtils
