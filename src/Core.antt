-- ===== src/Core.antt =====
-- l4scope/crates/l4scope-core: the shared data model (types.rs) and the configuration of
-- config.rs.
pub mod Types
pub mod Error
pub mod Float
pub mod Config
