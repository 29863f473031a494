-- ===== src/Provision.antt =====
-- src/core/provision.rs: the logical-unit scheme, the plan for a device, the comparison of a device
-- with the plan, and the rewrite.
pub mod Error
pub mod Scheme
pub mod WriteBooster
pub mod Plan
pub mod Compare
pub mod Apply
