-- ===== src/Retry.antt =====
-- src/middleware/retry.rs: its parts, by module. Budget is the retry budget, Capture the recording of
-- the request's body, Backoff the delays, Settings the layer's settings, and Service its loop.
pub mod Budget
pub mod Capture
pub mod Backoff
pub mod Settings
pub mod Service
mod Tests
