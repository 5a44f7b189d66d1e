-- ===== src/Call/Reducers.antt =====
-- The reducers of webapp/src/reducers/index.js, each with the cases of its `switch`, and
-- `combineReducers`, which gives each reducer its own key.
use mattermost_plugin_voices.Base.{
  ℕ, String, Bool, true, false, not, Option, none, some, or_null, null_or,
}
use mattermost_plugin_voices.Media.{MediaStream}
use mattermost_plugin_voices.Call.Session.{SessionState, idle, ringing}
use mattermost_plugin_voices.Call.Slice.{Slice, Action}

unfoldable pub config_loaded : Bool → Action → Bool
config_loaded state (Action.load_config c) = true
config_loaded state _ = state

unfoldable pub stun_server : String → Action → String
stun_server state (Action.load_config c) = c.stun_server
stun_server state _ = state

unfoldable pub turn_server : String → Action → String
turn_server state (Action.load_config c) = c.turn_server
turn_server state _ = state

unfoldable pub turn_server_username : String → Action → String
turn_server_username state (Action.load_config c) = c.turn_server_username
turn_server_username state _ = state

unfoldable pub turn_server_credential : String → Action → String
turn_server_credential state (Action.load_config c) = c.turn_server_credential
turn_server_credential state _ = state

unfoldable pub picker_open : Bool → Action → Bool
picker_open state (Action.open_video_call_picker h) = true
picker_open state Action.close_video_call_picker = false
picker_open state _ = state

unfoldable pub picker_hint_channel_id : Option String → Action → Option String
picker_hint_channel_id state (Action.open_video_call_picker h) = null_or h
picker_hint_channel_id state Action.close_video_call_picker = none
picker_hint_channel_id state _ = state

unfoldable pub modal_visible : Bool → Action → Bool
modal_visible state (Action.make_video_call p c a) = true
modal_visible state (Action.receive_video_call p c a i) = true
modal_visible state Action.reject_call = false
modal_visible state Action.end_call = false
modal_visible state _ = state

unfoldable pub call_listening : Bool → Action → Bool
call_listening state Action.listen_video_call = true
call_listening state _ = state

unfoldable pub call_incoming : Bool → Action → Bool
call_incoming state (Action.receive_video_call p c a i) = true
call_incoming state Action.reject_call = false
call_incoming state Action.end_call = false
call_incoming state _ = state

unfoldable pub call_outgoing : Bool → Action → Bool
call_outgoing state (Action.make_video_call p c a) = true
call_outgoing state Action.reject_call = false
call_outgoing state Action.end_call = false
call_outgoing state _ = state

unfoldable pub call_accepted : Bool → Action → Bool
call_accepted state (Action.make_video_call p c a) = true
call_accepted state Action.accept_call = true
call_accepted state Action.reject_call = false
call_accepted state Action.end_call = false
call_accepted state _ = state

unfoldable pub peer_accepted : Bool → Action → Bool
peer_accepted state Action.peer_accept = true
peer_accepted state (Action.make_video_call p c a) = false
peer_accepted state Action.outgoing_declined = false
peer_accepted state Action.reject_call = false
peer_accepted state Action.end_call = false
peer_accepted state _ = state

unfoldable pub call_peer_id : String → Action → String
call_peer_id state (Action.make_video_call p c a) = p
call_peer_id state (Action.receive_video_call p c a i) = p
call_peer_id state Action.reject_call = ""
call_peer_id state Action.end_call = ""
call_peer_id state _ = state

unfoldable pub active_call_id : Option String → Action → Option String
active_call_id state (Action.make_video_call p c a) = or_null c
active_call_id state (Action.receive_video_call p c a i) = or_null c
active_call_id state Action.reject_call = none
active_call_id state Action.end_call = none
active_call_id state Action.outgoing_declined = none
active_call_id state _ = state

unfoldable pub active_signal_session_id : Option String → Action → Option String
active_signal_session_id state (Action.signal_session_ready i) = some i
active_signal_session_id state (Action.make_video_call p c a) = none
active_signal_session_id state (Action.receive_video_call p c a i) = or_null i
active_signal_session_id state Action.reject_call = none
active_signal_session_id state Action.end_call = none
active_signal_session_id state Action.outgoing_declined = none
active_signal_session_id state _ = state

unfoldable pub call_session_state : SessionState → Action → SessionState
call_session_state state (Action.make_video_call p c a) = ringing
call_session_state state (Action.receive_video_call p c a i) = ringing
call_session_state state (Action.call_session_transition t) = t
call_session_state state Action.reject_call = idle
call_session_state state Action.end_call = idle
call_session_state state Action.outgoing_declined = idle
call_session_state state _ = state

unfoldable pub outgoing_call_declined : Bool → Action → Bool
outgoing_call_declined state Action.outgoing_declined = true
outgoing_call_declined state Action.reject_call = false
outgoing_call_declined state Action.end_call = false
outgoing_call_declined state (Action.make_video_call p c a) = false
outgoing_call_declined state _ = state

unfoldable pub call_peer_stream : Option MediaStream → Action → Option MediaStream
call_peer_stream state (Action.peer_stream_received m) = some m
call_peer_stream state Action.peer_lost = none
call_peer_stream state Action.end_call = none
call_peer_stream state _ = state

unfoldable pub call_peer_audio_on : Bool → Action → Bool
call_peer_audio_on state (Action.peer_audio_toggle b) = b
call_peer_audio_on state _ = state

unfoldable pub call_peer_video_on : Bool → Action → Bool
call_peer_video_on state (Action.peer_video_toggle b) = b
call_peer_video_on state _ = state

unfoldable pub self_stream : Option MediaStream → Action → Option MediaStream
self_stream state (Action.self_stream_set m) = some m
self_stream state Action.self_stream_unset = none
self_stream state Action.end_call = none
self_stream state _ = state

unfoldable pub connected_peer : Option ℕ → Action → Option ℕ
connected_peer state (Action.peer_received p) = some p
connected_peer state Action.peer_lost = none
connected_peer state Action.end_call = none
connected_peer state _ = state

unfoldable pub media_error : String → Action → String
media_error state (Action.media_error_found e) = e
media_error state (Action.make_video_call p c a) = ""
media_error state Action.accept_call = ""
media_error state (Action.receive_video_call p c a i) = ""
media_error state Action.reject_call = ""
media_error state Action.end_call = ""
media_error state _ = state

unfoldable pub audio_on : Bool → Action → Bool
audio_on state (Action.audio_toggle b) = b
audio_on state _ = state

unfoldable pub video_on : Bool → Action → Bool
video_on state (Action.make_video_call p c a) = not a
video_on state (Action.receive_video_call p c a i) = not a
video_on state (Action.video_toggle b) = b
video_on state _ = state

unfoldable pub call_audio_only : Bool → Action → Bool
call_audio_only state (Action.make_video_call p c a) = a
call_audio_only state (Action.receive_video_call p c a i) = a
call_audio_only state Action.reject_call = false
call_audio_only state Action.end_call = false
call_audio_only state _ = state

unfoldable pub reduce : Slice → Action → Slice
unfolding config_loaded stun_server turn_server turn_server_username turn_server_credential
    picker_open picker_hint_channel_id modal_visible call_listening call_incoming call_outgoing
    call_accepted peer_accepted call_peer_id active_call_id active_signal_session_id
    call_session_state outgoing_call_declined call_peer_stream call_peer_audio_on call_peer_video_on
    self_stream connected_peer media_error audio_on video_on call_audio_only
reduce s a = record {
  config_loaded = config_loaded s.config_loaded a;
  stun_server = stun_server s.stun_server a;
  turn_server = turn_server s.turn_server a;
  turn_server_username = turn_server_username s.turn_server_username a;
  turn_server_credential = turn_server_credential s.turn_server_credential a;
  picker_open = picker_open s.picker_open a;
  picker_hint_channel_id = picker_hint_channel_id s.picker_hint_channel_id a;
  modal_visible = modal_visible s.modal_visible a;
  call_listening = call_listening s.call_listening a;
  call_incoming = call_incoming s.call_incoming a;
  call_outgoing = call_outgoing s.call_outgoing a;
  call_accepted = call_accepted s.call_accepted a;
  peer_accepted = peer_accepted s.peer_accepted a;
  call_peer_id = call_peer_id s.call_peer_id a;
  active_call_id = active_call_id s.active_call_id a;
  active_signal_session_id = active_signal_session_id s.active_signal_session_id a;
  call_session_state = call_session_state s.call_session_state a;
  outgoing_call_declined = outgoing_call_declined s.outgoing_call_declined a;
  call_peer_stream = call_peer_stream s.call_peer_stream a;
  call_peer_audio_on = call_peer_audio_on s.call_peer_audio_on a;
  call_peer_video_on = call_peer_video_on s.call_peer_video_on a;
  self_stream = self_stream s.self_stream a;
  connected_peer = connected_peer s.connected_peer a;
  media_error = media_error s.media_error a;
  audio_on = audio_on s.audio_on a;
  video_on = video_on s.video_on a;
  call_audio_only = call_audio_only s.call_audio_only a;
}
