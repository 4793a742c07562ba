-- ===== src/Schema.antt =====
-- The schema model of crates/rshome-schema: pins, orchestration metadata, the component registry.
pub mod Chip
pub mod Pin
pub mod Orchestration
pub mod Registry
pub mod Profile
pub mod Solution
pub mod Entity
pub mod Flags
