-- ===== src/Call.antt =====
-- The 1:1 call: webapp/src/utils/callSession.js, webapp/src/reducers/index.js and
-- webapp/src/actions/index.js.
pub mod Effect
pub mod Session
pub mod Slice
pub mod Reducers
pub mod Listeners
pub mod World
pub mod Ending
pub mod Placing
pub mod Answering
pub mod Sharing
pub mod Steps
pub mod Consistent
pub mod Release
pub mod Ended
pub mod Invariance
pub mod Answers
pub mod Guards
pub mod Capture
pub mod Teardown
mod Tests
pub mod Delivery
