-- ===== src/Examples.antt =====
-- Concrete runs: messages, components, pins, handles, devices, machines and stores small enough to
-- read.
pub mod Frames
pub mod Components
pub mod Pins
pub mod Objects
pub mod Devices
pub mod Machines
pub mod Stores
pub mod Configs
pub mod Device
pub mod Runs
pub mod Validations
