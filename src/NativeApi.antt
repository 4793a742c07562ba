-- ===== src/NativeApi.antt =====
-- The ESPHome native API of crates/rshome-native-api: its frame codec and its entity keys.
pub mod Fnv
pub mod Codec
