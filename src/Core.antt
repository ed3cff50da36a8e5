-- ===== src/Core.antt =====
-- crates/abora-core/src/lib.rs: the framework's version type.
pub mod Version
