-- ===== src/Hooks.antt =====
-- Webhooks of services/api/src, the stored secrets that sign them, and what keeps secrets out of logs.
pub mod Keys
pub mod Deliver
pub mod Redact
mod Tests
