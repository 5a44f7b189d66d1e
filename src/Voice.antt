-- ===== src/Voice.antt =====
-- Voice rooms: webapp/src/utils/voiceSession.js.
pub mod Effect
pub mod Session
pub mod Peers
pub mod Steps
pub mod Ownership
pub mod Closing
pub mod Timers
mod Tests
