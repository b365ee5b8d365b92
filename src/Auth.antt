-- ===== src/Auth.antt =====
-- server/auth: who may do what, and the sessions of the clients.
pub mod Rbac
pub mod Sessions
mod Tests
