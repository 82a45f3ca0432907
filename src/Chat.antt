-- ===== src/Chat.antt =====
-- services/api/src/routes/chat.ts: the stream of messages, and the requests that write them.
pub mod Mentions
pub mod Dispatch
pub mod Callback
pub mod Chain
pub mod Kept
pub mod Membership
pub mod Poll
pub mod Requests
pub mod Routing
pub mod Sweep
pub mod Threads
pub mod Working
pub mod Send
pub mod Store
mod RequestTests
mod Tests
