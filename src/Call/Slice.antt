-- ===== src/Call/Slice.antt =====
-- webapp/src/reducers/index.js and webapp/src/action_types/index.js: the plugin's slice of the Redux
-- store, one reducer for each key.
use mattermost_plugin_voices.Base.{ℕ, String, Bool, true, false, Option, none}
use mattermost_plugin_voices.Media.{MediaStream}
use mattermost_plugin_voices.Call.Session.{SessionState, idle}

-- what `/v1/config` answers
pub record Config : Type 0 where
  pub stun_server : String
  pub turn_server : String
  pub turn_server_username : String
  pub turn_server_credential : String

-- The actions that the reducers know, with the data that the code dispatches with them. `other` is
-- any other action, of the plugin (`PEER_STREAM_LOST`) or of the host.
pub data Action : Type 0 where
  load_config : Config → Action
  make_video_call : (peer_id call_id : String) (audio_only : Bool) → Action
  call_session_transition : SessionState → Action
  signal_session_ready : String → Action
  receive_video_call :
      (peer_id call_id : String) (audio_only : Bool) (signal_session_id : String) → Action
  listen_video_call peer_accept accept_call reject_call end_call : Action
  peer_stream_received : MediaStream → Action
  peer_audio_toggle peer_video_toggle : Bool → Action
  peer_received : ℕ → Action
  peer_lost : Action
  self_stream_set : MediaStream → Action
  self_stream_unset : Action
  audio_toggle video_toggle : Bool → Action
  open_video_call_picker : Option String → Action
  close_video_call_picker outgoing_declined : Action
  media_error_found : String → Action
  other : Action

pub record Slice : Type 0 where
  pub config_loaded : Bool
  pub stun_server : String
  pub turn_server : String
  pub turn_server_username : String
  pub turn_server_credential : String
  pub picker_open : Bool
  pub picker_hint_channel_id : Option String
  pub modal_visible : Bool
  pub call_listening : Bool
  pub call_incoming : Bool
  pub call_outgoing : Bool
  pub call_accepted : Bool
  pub peer_accepted : Bool
  pub call_peer_id : String
  pub active_call_id : Option String
  pub active_signal_session_id : Option String
  pub call_session_state : SessionState
  pub outgoing_call_declined : Bool
  pub call_peer_stream : Option MediaStream
  pub call_peer_audio_on : Bool
  pub call_peer_video_on : Bool
  pub self_stream : Option MediaStream
  pub connected_peer : Option ℕ
  pub media_error : String
  pub audio_on : Bool
  pub video_on : Bool
  pub call_audio_only : Bool

-- the reducers' initial states
abbrev pub initial_slice : Slice
initial_slice = record {
  config_loaded = false;
  stun_server = "";
  turn_server = "";
  turn_server_username = "";
  turn_server_credential = "";
  picker_open = false;
  picker_hint_channel_id = none;
  modal_visible = false;
  call_listening = false;
  call_incoming = false;
  call_outgoing = false;
  call_accepted = false;
  peer_accepted = false;
  call_peer_id = "";
  active_call_id = none;
  active_signal_session_id = none;
  call_session_state = idle;
  outgoing_call_declined = false;
  call_peer_stream = none;
  call_peer_audio_on = true;
  call_peer_video_on = true;
  self_stream = none;
  connected_peer = none;
  media_error = "";
  audio_on = true;
  video_on = true;
  call_audio_only = false;
}
