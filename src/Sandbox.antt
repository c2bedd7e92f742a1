-- ===== src/Sandbox.antt =====
-- The sandbox of the scanners, backend/src/services/sandbox.rs: what a container may be, and the
-- arguments of `docker` that start it.
pub mod Spec
pub mod Argv
pub mod Policy
mod Tests
