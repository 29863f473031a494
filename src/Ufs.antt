-- ===== src/Ufs.antt =====
-- src/core/ufs.rs: the wire format of UFS descriptors and the query transport.
pub mod Codes
pub mod Error
pub mod Bytes
pub mod Device
pub mod Geometry
pub mod Config
pub mod World
pub mod Query
pub mod Rescan
