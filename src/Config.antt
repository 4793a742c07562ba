-- ===== src/Config.antt =====
-- crates/rshome-config/src: the validation of a device configuration. Each child is a file of the
-- crate or a stage of the pipeline.
pub mod Value
pub mod Diagnostic
pub mod Raw
pub mod Packages
pub mod Substitutions
pub mod Merge
pub mod Directives
pub mod Variants
pub mod Schemas
pub mod FinalChecks
pub mod PinConflicts
pub mod Loading
pub mod Ids
pub mod SecretFields
pub mod Sources
pub mod Preload
pub mod ExclusiveGroups
pub mod Profiles
pub mod Assembly
pub mod Pipeline
