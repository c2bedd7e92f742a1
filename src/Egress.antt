-- ===== src/Egress.antt =====
-- backend/src/services/egress_policy.rs: where the dependency scanner may connect to.
pub mod Address
pub mod Target
pub mod Proxy
mod Tests
