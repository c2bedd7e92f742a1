-- ===== src/Authz.antt =====
-- The Docker authorization plugin, docker-authz-plugin/src/lib.rs and src/main.rs.
pub mod Base64
pub mod Path
pub mod Query
pub mod Host
pub mod Request
pub mod Pull
pub mod Create
pub mod Plugin
mod Tests
