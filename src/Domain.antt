-- ===== src/Domain.antt =====
-- The data model: freezeitDaemon/src/domain and freezeitDaemon/src/app/error.rs.
pub mod Error
pub mod Policy
pub mod Process
pub mod Operation
pub mod Capability
