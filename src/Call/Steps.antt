-- ===== src/Call/Steps.antt =====
-- The events that change a world, each with the function that handles it. The page shows its answer
-- buttons and closes its window as webapp/src/components/modals/start_video_call/start_video_call.jsx
-- says. A message of the hub reaches a listener that is live.
use mattermost_plugin_voices.Base.{
  ℕ, String, Bool, not, ◌&&◌, Option, none, some, List, [], ◌∷◌, if◌then◌else◌,
}
use mattermost_plugin_voices.Base.Js.{Value}
use mattermost_plugin_voices.Media.{Track, MediaStream}
use mattermost_plugin_voices.Call.Slice.{Config, Action}
use mattermost_plugin_voices.Call.Listeners.{is_decline, is_cancel}
use mattermost_plugin_voices.Call.World.{World, dispatch}
use mattermost_plugin_voices.Call.Ending.{post_declined, end_call, reject_call, outgoing_declined}
use mattermost_plugin_voices.Call.Placing.{
  make_video_call, post_invite, session_created, invite_answered,
}
use mattermost_plugin_voices.Call.Answering.{
  inbox_message, listen_video_call, accept_message, accept_call,
}
use mattermost_plugin_voices.Call.Sharing.{
  Capture, MediaAnswer, share_media, peer_found, peer_data, peer_stream, peer_track,
  peer_disconnected, audio_toggle, video_toggle, camera_answered,
}

-- the window that asks whether to answer
abbrev pub asks : World → Bool
asks w = w.slice.modal_visible && not w.slice.call_accepted && w.slice.call_incoming

-- the buttons of that window
unfoldable pub accept_clicked : World → World
accept_clicked w = if asks w then accept_call w else w

unfoldable pub reject_clicked : World → World
reject_clicked w = if asks w then reject_call w else w

-- `handleClose`
unfoldable pub modal_closed : World → World
modal_closed w =
    if w.slice.call_incoming && not w.slice.call_accepted then reject_call w else end_call w

module _ (parse : String → Option Value) where
  unfoldable pub decline_arrived : Value → World → World
  decline_arrived payload w = elim w.decline [
    | none ↦ w
    | some l ↦ if l.live && is_decline parse l payload then outgoing_declined l.call_id w else w
  ]

  unfoldable pub cancel_arrived : Value → World → World
  cancel_arrived payload w = elim w.cancel [
    | none ↦ w
    | some l ↦ if l.live && is_cancel parse l payload then end_call w else w
  ]

pub data Event : Type 0 where
  config_loaded : Config → Event
  listen : Event
  open_picker : Option String → Event
  close_picker : Event
  place : (call_id peer_id : String) (audio_only : Bool) → Event
  declined_posted : (known ensured : Option String) (caller_id : String) → Event
  posted : (known ensured : Option String) (peer_id call_id : String) → Event
  session_answer : (call_id peer_id : String) (audio_only : Bool) (answer : Option String) → Event
  invite_answer : (call_id : String) (hub : ℕ) (delivered : Bool) → Event
  inbox : Value → Event
  accept_click reject_click end_click modal_close : Event
  accept_arrives : (caller_id call_id : String) (hub : ℕ) → Value → Event
  decline_arrives cancel_arrives : Value → Event
  found_peer : (call_id user_id : String) (peer : ℕ) → Event
  data_arrives : (peer : ℕ) → Value → Event
  stream_arrives : MediaStream → Event
  track_arrives : Track → MediaStream → Event
  disconnected : Event
  captured_media : (peer : ℕ) (audio_only : Bool) → Capture → Event
  toggle_audio toggle_video : Event
  camera_answer : (call_id : String) (peer preview_id : ℕ) → MediaAnswer → Event

module _ (parse : String → Option Value) where
  unfoldable pub step : Event → World → World
  step (config_loaded c) w = dispatch (Action.load_config c) w
  step listen w = listen_video_call w
  step (open_picker hint) w = dispatch (Action.open_video_call_picker hint) w
  step close_picker w = dispatch Action.close_video_call_picker w
  step (place call_id peer_id audio_only) w = make_video_call call_id peer_id audio_only w
  step (declined_posted known ensured caller_id) w = post_declined known ensured caller_id w
  step (posted known ensured peer_id call_id) w = post_invite known ensured peer_id call_id w
  step (session_answer call_id peer_id audio_only answer) w =
      session_created call_id peer_id audio_only answer w
  step (invite_answer call_id hub delivered) w = invite_answered call_id hub delivered w
  step (inbox raw) w = inbox_message raw w
  step accept_click w = accept_clicked w
  step reject_click w = reject_clicked w
  step end_click w = end_call w
  step modal_close w = modal_closed w
  step (accept_arrives caller_id call_id hub m) w = accept_message caller_id call_id hub m w
  step (decline_arrives payload) w = decline_arrived parse payload w
  step (cancel_arrives payload) w = cancel_arrived parse payload w
  step (found_peer call_id user_id peer) w = peer_found call_id user_id peer w
  step (data_arrives peer m) w = peer_data peer m w
  step (stream_arrives m) w = peer_stream m w
  step (track_arrives t m) w = peer_track t m w
  step disconnected w = peer_disconnected w
  step (captured_media peer audio_only c) w = share_media peer audio_only c w
  step toggle_audio w = audio_toggle w
  step toggle_video w = video_toggle w
  step (camera_answer call_id peer preview_id a) w = camera_answered call_id peer preview_id a w

  -- a session of the page
  unfoldable pub run : List Event → World → World
  unfolding step
  run [] w = w
  run (e ∷ es) w = run es (step e w)
