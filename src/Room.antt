-- ===== src/Room.antt =====
-- The panel of voice rooms: webapp/src/components/modals/audio_group_call/audio_group_call.jsx, with
-- webapp/src/utils/voiceRoomController.js.
pub mod Effect
pub mod Controller
pub mod Picker
pub mod Panel
pub mod Joining
pub mod Connecting
pub mod Steps
pub mod Older
pub mod Agrees
pub mod Agreement
pub mod Switching
pub mod Keeping
pub mod Places
mod Tests
