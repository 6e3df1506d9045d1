-- ===== src/Tests.antt =====
-- A small device, and the theorems on concrete inputs.
pub mod Device
pub mod Disk
pub mod Ledger
pub mod Protocol
pub mod Transactions
pub mod Passes
pub mod Decisions
pub mod Recovery
pub mod Reports
