-- ===== src/Tests.antt =====
-- The definitions at concrete inputs: dumps of real parts, and each property at one of them.
pub mod Descriptors
pub mod Provisioning
pub mod Device
pub mod Discovery
pub mod Rig
pub mod Installing
pub mod Control
pub mod Downloading
pub mod Menu
pub mod Bundles
pub mod Builds
