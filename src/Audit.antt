-- ===== src/Audit.antt =====
-- The canonical audit of the scanners' findings, its report and the narrative that may go with it:
-- backend/src/schemas/{canonical_audit,report,ai_narrative}.rs and
-- backend/src/orchestrator/canonical_audit.rs.
pub mod Schema
pub mod Services
pub mod Metadata
pub mod Path
pub mod Scanner
pub mod Runs
pub mod Location
pub mod Evidence
pub mod Identity
pub mod Normalize
pub mod Canonical
pub mod Persist
pub mod Report
pub mod Narrative
mod Tests
