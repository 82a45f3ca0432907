-- ===== src/Stream.antt =====
-- Long-lived connections of services/api/src.
pub mod Relay
pub mod PollSignal
pub mod SseWriter
pub mod BoundedRead
pub mod Deadline
pub mod Terminal
pub mod Tests
