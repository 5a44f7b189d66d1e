-- ===== src/Room/Panel.antt =====
-- The state of `AudioCallPanel`, of
-- webapp/src/components/modals/audio_group_call/audio_group_call.jsx: what React keeps for it, and
-- the fields of the object. The invitations are apart, in Invite.antt.
use mattermost_plugin_voices.Base.{
  ℕ, String, Bool, true, false, ◌&&◌, Option, none, some, List, [], ◌∷◌, push, if◌then◌else◌, ◌==◌,
}
use mattermost_plugin_voices.Voice.Session
use mattermost_plugin_voices.Voice.Session.{VoiceSession}
use mattermost_plugin_voices.Room.Picker.{Picker, new_picker, hide}
use mattermost_plugin_voices.Room.Effect.{Effect, send_presence}
use mattermost_plugin_voices.Room.Controller.{
  Controller, new_controller, stop_presence, start_presence,
}

pub record ActiveRoom : Type 0 where
  pub room_id : String
  pub name : String

-- a room of the directory, as far as the code reads it
pub record Room : Type 0 where
  pub room_id : String
  pub name : String
  pub creator_id : String
  pub participants : List String

-- What a callback of `voiceSession.close` does: `finishJoin`, the callback of a leave, of a leave
-- before the room is deleted, and of `disconnectLocalRoom`.
pub data Task : Type 0 where
  finish_join : (transition_id : ℕ) (room_id name : String) → Task
  nothing : Task
  delete_room : (room_id : String) → Task
  disconnected : Task

-- `tasks` says what the callback with a number does.
pub record Panel : Type 0 where
  pub session : VoiceSession
  pub controller : Controller
  pub active_room : Option ActiveRoom
  pub initialized : Bool
  pub swarm_initialized : Bool
  pub audio_on : Bool
  pub audio_enabled : Bool
  pub video_enabled : Bool
  pub speaker_on : Bool
  pub channel_list : List Room
  pub directory_error : String
  pub connect_pending : Bool
  pub media_request_pending : Bool
  pub picker : Picker
  pub room_transition_id : ℕ
  pub is_unmounted : Bool
  pub tasks : ℕ → Task
  pub next_task : ℕ
  pub log : List Effect

abbrev pub new_panel : Panel
new_panel = record {
  session = Session.new_session;
  controller = new_controller;
  active_room = none;
  initialized = false;
  swarm_initialized = false;
  audio_on = false;
  audio_enabled = true;
  video_enabled = false;
  speaker_on = true;
  channel_list = [];
  directory_error = "";
  connect_pending = false;
  media_request_pending = false;
  picker = new_picker;
  room_transition_id = 0;
  is_unmounted = false;
  tasks = λ n. nothing;
  next_task = 0;
  log = [];
}

unfoldable pub emit : List Effect → Panel → Panel
emit es p = record p { log = push es p.log }

-- a method of the room controller
unfoldable pub control : Controller × List Effect → Panel → Panel
unfolding emit
control (c, effects) p = emit effects (record p { controller = c })

-- `this.state.audioOn && this.state.audioEnabled`
abbrev pub microphone_on : Panel → Bool
microphone_on p = p.audio_on && p.audio_enabled

-- `announcePresence`
unfoldable pub announce_presence : (room_id : String) → Panel → Panel
unfolding emit
announce_presence room_id p = emit (send_presence room_id (microphone_on p) ∷ []) p

unfoldable pub halt_presence : Panel → Panel
unfolding control stop_presence
halt_presence p = control (stop_presence p.controller) p

-- `clearPresence`
unfoldable pub clear_presence : Panel → Panel
unfolding emit halt_presence
clear_presence p = emit (send_presence "" false ∷ []) (halt_presence p)

-- `startPresence`
unfoldable pub begin_presence : (room_id : String) → Panel → Panel
unfolding control start_presence
begin_presence room_id p = control (start_presence room_id (microphone_on p) p.controller) p

unfoldable pub reset_active_room_state : Panel → Panel
reset_active_room_state p = if p.is_unmounted then p else record p {
  active_room = none;
  initialized = false;
  swarm_initialized = false;
  audio_on = false;
  speaker_on = false;
  picker = hide p.picker;
}

-- `activeRoom && activeRoom.roomId === roomId`
abbrev pub is_in : Option ActiveRoom → String → Bool
is_in none room_id = false
is_in (some a) room_id = a.room_id == room_id
