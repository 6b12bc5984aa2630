-- ===== src/Operator.antt =====
-- src/hash.h, src/handle.h, src/config.h and src/operator.h: operators are made for a device and an
-- implementation, kept in a cache under a key of the arguments, and called with a handle.
pub mod Key
pub mod Make
pub mod Cache
pub mod KeyLaws
pub mod MakeLaws
pub mod CacheLaws
