-- ===== src/Agent.antt =====
-- The agents' recorded state and what keeps it honest: services/api/src/services.
pub mod Reconcile
pub mod Update
pub mod Settling
pub mod Verification
pub mod World
pub mod Pass
pub mod Tools
pub mod Journal
pub mod Tests
