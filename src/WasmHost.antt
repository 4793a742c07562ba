-- ===== src/WasmHost.antt =====
-- The host of WASM integrations of crates/rshome-wasm-host.
pub mod Capability
