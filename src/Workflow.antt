-- ===== src/Workflow.antt =====
-- crates/rshome-wf: workflows, their state machines and the engine that runs them.
pub mod Definition
pub mod Trim
pub mod Rtc
pub mod Machine
pub mod Engine
