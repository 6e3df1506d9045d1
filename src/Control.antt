-- ===== src/Control.antt =====
-- The control loop: freezeitDaemon/src/app/controller.rs.
pub mod State
pub mod World
pub mod Transaction
pub mod Signal
pub mod Thaw
pub mod Settings
pub mod Audit
pub mod Recovery
pub mod Live
pub mod Status
pub mod Pass
