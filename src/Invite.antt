-- ===== src/Invite.antt =====
-- Invitations to voice rooms: the invitations of AudioCallPanel,
-- webapp/src/components/modals/audio_group_call/audio_group_call.jsx, with
-- webapp/src/utils/voiceInviteController.js.
pub mod Controller
pub mod State
pub mod Search
pub mod Incoming
pub mod Steps
pub mod Latest
pub mod Found
pub mod Offered
pub mod Overlap
pub mod Eligible
pub mod Listed
pub mod Post
mod Tests
