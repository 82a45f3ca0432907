-- ===== src/Access.antt =====
-- Who may do what: services/api/src/middleware and the terminal's handshake.
pub mod Roles
pub mod Auth
pub mod Upgrade
pub mod Page
pub mod Tests
