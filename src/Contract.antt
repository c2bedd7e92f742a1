-- ===== src/Contract.antt =====
-- backend/src/schemas/scan_contract.rs: the contract that every handoff of the scan pipeline keeps.
pub mod State
mod Sets
pub mod Types
pub mod Target
pub mod Findings
pub mod Result
pub mod Report
mod Tests
