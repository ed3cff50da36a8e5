-- ===== src/Config.antt =====
-- crates/abora-config: the typed configuration (lib.rs) and what the update policy allows now
-- (schedule.rs). TOML itself, and the extension tables of other programs, are not modelled.
pub mod Clock
pub mod Duration
pub mod Settings
pub mod Equality
pub mod Validate
pub mod Load
pub mod Schedule
mod Tests
