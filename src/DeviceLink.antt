-- ===== src/DeviceLink.antt =====
-- crates/rshome-device-link: the links to devices on the local network.
pub mod Manager
