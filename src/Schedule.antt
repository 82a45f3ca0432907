-- ===== src/Schedule.antt =====
-- The workflow scheduler: services/api/src/services/workflow-scheduler.ts, helpers/cron.ts and
-- services/chat-dispatch.ts.
pub mod Store
pub mod Dispatch
pub mod Tick
pub mod Startup
pub mod Tests
