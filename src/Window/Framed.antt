-- ===== src/Window/Framed.antt =====
-- What each event keeps of the flags of a call:
-- webapp/src/reducers/index.js under webapp/src/actions/index.js.
use mattermost_plugin_voices.Base.{
  ℕ, String, Bool, true, false, not, ◌&&◌, ◌||◌, Option, none, some, List, [], ◌∷◌, ◌≡◌, arith,
  if◌then◌else◌, Option-cases, ◌⊎◌, inl, inr,
}
use mattermost_plugin_voices.Base.Js.{Value}
use mattermost_plugin_voices.Users.{User}
use mattermost_plugin_voices.Media.{MediaStream, Track}
use mattermost_plugin_voices.Call.Session.{start}
use mattermost_plugin_voices.Call.Slice.{Config, Slice, Action}
use mattermost_plugin_voices.Call.Reducers.{reduce}
use mattermost_plugin_voices.Call.World.{World, new_world, dispatch}
use mattermost_plugin_voices.Call.Steps.{
  Event, config_loaded, listen, open_picker, close_picker, place, posted, declined_posted,
  session_answer, invite_answer, inbox, accept_click, reject_click, end_click, modal_close,
  accept_arrives, decline_arrives, cancel_arrives, found_peer, data_arrives, stream_arrives,
  track_arrives, disconnected, captured_media, toggle_audio, toggle_video, camera_answer, asks,
  accept_clicked, reject_clicked, modal_closed, decline_arrived, cancel_arrived, step, run,
}
use mattermost_plugin_voices.Call.Ending.{post_declined, end_call, reject_call, outgoing_declined}
use mattermost_plugin_voices.Call.Placing.{
  make_video_call, post_invite, session_created, invite_answered,
}
use mattermost_plugin_voices.Call.Answering.{
  Invite, ring_incoming, parse_authorized_call_invite, receive_video_call, inbox_message,
  listen_video_call, accept_message, accept_call,
}
use mattermost_plugin_voices.Call.Sharing.{
  Capture, MediaAnswer, share_media, peer_found, peer_data, peer_stream, peer_track,
  peer_disconnected, audio_toggle, video_toggle, camera_answered,
}
use mattermost_plugin_voices.Call.Invariance.Answering.{receive_video_call-cases}
use mattermost_plugin_voices.Call.Listeners.{DeclineListener}
use mattermost_plugin_voices.Call.Invariance.{cancel_arrived-cases}

-- What every action keeps: the window is open exactly during a call, and an outgoing call counts as
-- accepted.
pub record Framed (s : Slice) : Type 0 where
  pub visible : s.modal_visible ≡ (s.call_incoming || s.call_outgoing)
  pub outgoing : s.call_outgoing ≡ true → s.call_accepted ≡ true

pub new_world-Framed :
    (user : Option User) (profiles : String → Option User) → Framed (new_world user profiles).slice
new_world-Framed user profiles = ground arith

make_video_call-Framed :
    (c p : String) (a : Bool) (w : World) → Framed w.slice → Framed (make_video_call c p a w).slice
unfolding make_video_call dispatch reduce
make_video_call-Framed c p a w f = ground arith

post_declined-Framed :
    (k e : Option String) (c : String) (w : World)
    → Framed w.slice
    → Framed (post_declined k e c w).slice
unfolding post_declined dispatch reduce
post_declined-Framed k e c w f = ground arith

post_invite-Framed :
    (k e : Option String) (p c : String) (w : World)
    → Framed w.slice
    → Framed (post_invite k e p c w).slice
unfolding post_invite dispatch reduce
post_invite-Framed k e p c w f = ground arith

session_created-Framed :
    (c p : String) (a : Bool) (n : Option String) (w : World)
    → Framed w.slice
    → Framed (session_created c p a n w).slice
unfolding session_created dispatch reduce
session_created-Framed c p a n w f = ground arith

invite_answered-Framed :
    (c : String) (h : ℕ) (d : Bool) (w : World)
    → Framed w.slice
    → Framed (invite_answered c h d w).slice
unfolding invite_answered dispatch reduce
invite_answered-Framed c h d w f = ground arith

listen_video_call-Framed : (w : World) → Framed w.slice → Framed (listen_video_call w).slice
unfolding listen_video_call dispatch reduce
listen_video_call-Framed w f = ground arith

accept_call-Framed : (w : World) → Framed w.slice → Framed (accept_call w).slice
unfolding accept_call dispatch reduce
accept_call-Framed w f = ground arith

reject_call-Framed : (w : World) → Framed w.slice → Framed (reject_call w).slice
unfolding reject_call dispatch reduce
reject_call-Framed w f = ground arith

end_call-Framed : (w : World) → Framed w.slice → Framed (end_call w).slice
unfolding end_call dispatch reduce
end_call-Framed w f = ground arith

if-Framed :
    (b : Bool) (v w : World) → Framed v.slice → Framed w.slice → Framed (if b then v else w).slice
if-Framed true v w f g = f
if-Framed false v w f g = g

ring_incoming-Framed : (i : Invite) (w : World) → Framed w.slice → Framed (ring_incoming i w).slice
unfolding ring_incoming dispatch reduce
ring_incoming-Framed i w f = ground arith

receive_video_call-Framed :
    (i : Invite) (w : World) → Framed w.slice → Framed (receive_video_call i w).slice
receive_video_call-Framed i w f = elim (receive_video_call-cases i w) [
  | inl e ↦ rw e f
  | inr (no_in, no_out, s, started, e) ↦
      rw e (
        ring_incoming-Framed i (record w { session = (start i.call_id i.caller_id w.session).0 }) f)
]

inbox_message-Framed : (v : Value) (w : World) → Framed w.slice → Framed (inbox_message v w).slice
unfolding inbox_message
inbox_message-Framed v w f = elim (Option-cases (parse_authorized_call_invite v)) [
  | inl n ↦ rw (n, inbox_message) f
  | inr (i, e) ↦ rw (e, inbox_message) (receive_video_call-Framed i w f)
]

accept_message-Framed :
    (u c : String) (h : ℕ) (v : Value) (w : World)
    → Framed w.slice
    → Framed (accept_message u c h v w).slice
unfolding accept_message dispatch reduce
accept_message-Framed u c h v w f = ground arith

outgoing_declined-Framed :
    (c : String) (w : World) → Framed w.slice → Framed (outgoing_declined c w).slice
unfolding outgoing_declined dispatch reduce
outgoing_declined-Framed c w f = ground arith

peer_found-Framed :
    (c u : String) (p : ℕ) (w : World) → Framed w.slice → Framed (peer_found c u p w).slice
unfolding peer_found dispatch reduce
peer_found-Framed c u p w f = ground arith

peer_data-Framed : (p : ℕ) (v : Value) (w : World) → Framed w.slice → Framed (peer_data p v w).slice
unfolding peer_data dispatch reduce
peer_data-Framed p v w f = ground arith

peer_stream-Framed : (m : MediaStream) (w : World) → Framed w.slice → Framed (peer_stream m w).slice
unfolding peer_stream dispatch reduce
peer_stream-Framed m w f = ground arith

peer_track-Framed :
    (t : Track) (m : MediaStream) (w : World) → Framed w.slice → Framed (peer_track t m w).slice
unfolding peer_track dispatch reduce
peer_track-Framed t m w f = ground arith

peer_disconnected-Framed : (w : World) → Framed w.slice → Framed (peer_disconnected w).slice
unfolding peer_disconnected dispatch reduce
peer_disconnected-Framed w f = ground arith

share_media-Framed :
    (p : ℕ) (a : Bool) (c : Capture) (w : World)
    → Framed w.slice
    → Framed (share_media p a c w).slice
unfolding share_media dispatch reduce
share_media-Framed p a c w f = ground arith

audio_toggle-Framed : (w : World) → Framed w.slice → Framed (audio_toggle w).slice
unfolding audio_toggle dispatch reduce
audio_toggle-Framed w f = ground arith

video_toggle-Framed : (w : World) → Framed w.slice → Framed (video_toggle w).slice
unfolding video_toggle dispatch reduce
video_toggle-Framed w f = ground arith

camera_answered-Framed :
    (c : String) (p i : ℕ) (a : MediaAnswer) (w : World)
    → Framed w.slice
    → Framed (camera_answered c p i a w).slice
unfolding camera_answered dispatch reduce
camera_answered-Framed c p i a w f = ground arith

load_config-Framed :
    (c : Config) (w : World) → Framed w.slice → Framed (dispatch (Action.load_config c) w).slice
unfolding dispatch reduce
load_config-Framed c w f = ground arith

open_picker-Framed :
    (h : Option String) (w : World)
    → Framed w.slice
    → Framed (dispatch (Action.open_video_call_picker h) w).slice
unfolding dispatch reduce
open_picker-Framed h w f = ground arith

close_picker-Framed :
    (w : World) → Framed w.slice → Framed (dispatch Action.close_video_call_picker w).slice
unfolding dispatch reduce
close_picker-Framed w f = ground arith

module _ (parse : String → Option Value) where
  decline_arrived-none : (v : Value) (w : World) → w.decline ≡ none → decline_arrived parse v w ≡ w
  unfolding decline_arrived
  decline_arrived-none v w n = ground arith

  decline_arrived-some :
      (l : DeclineListener) (v : Value) (w : World)
      → w.decline ≡ some l
      → (decline_arrived parse v w ≡ w)
        ⊎ (decline_arrived parse v w ≡ outgoing_declined l.call_id w)
  unfolding decline_arrived
  decline_arrived-some l v w e = ground arith

  decline_arrived-Framed :
      (v : Value) (w : World) → Framed w.slice → Framed (decline_arrived parse v w).slice
  decline_arrived-Framed v w f = elim (Option-cases w.decline) [
    | inl n ↦ rw (decline_arrived-none v w n) f
    | inr (l, e) ↦ elim (decline_arrived-some l v w e) [
      | inl same ↦ rw same f
      | inr ended ↦ rw ended (outgoing_declined-Framed l.call_id w f)
    ]
  ]

  cancel_arrived-Framed :
      (v : Value) (w : World) → Framed w.slice → Framed (cancel_arrived parse v w).slice
  cancel_arrived-Framed v w f = elim (cancel_arrived-cases parse v w) [
    | inl same ↦ rw same f
    | inr ended ↦ rw ended (end_call-Framed w f)
  ]

  step-Framed : (e : Event) (w : World) → Framed w.slice → Framed (step parse e w).slice
  unfolding step accept_clicked reject_clicked modal_closed
  step-Framed (config_loaded c) w f = load_config-Framed c w f
  step-Framed listen w f = listen_video_call-Framed w f
  step-Framed (open_picker h) w f = open_picker-Framed h w f
  step-Framed close_picker w f = close_picker-Framed w f
  step-Framed (place c p a) w f = make_video_call-Framed c p a w f
  step-Framed (declined_posted k e c) w f = post_declined-Framed k e c w f
  step-Framed (posted k e p c) w f = post_invite-Framed k e p c w f
  step-Framed (session_answer c p a n) w f = session_created-Framed c p a n w f
  step-Framed (invite_answer c h d) w f = invite_answered-Framed c h d w f
  step-Framed (inbox v) w f = inbox_message-Framed v w f
  step-Framed accept_click w f = if-Framed (asks w) (accept_call w) w (accept_call-Framed w f) f
  step-Framed reject_click w f = if-Framed (asks w) (reject_call w) w (reject_call-Framed w f) f
  step-Framed end_click w f = end_call-Framed w f
  step-Framed modal_close w f =
      if-Framed (w.slice.call_incoming && not w.slice.call_accepted) (reject_call w) (end_call w)
        (reject_call-Framed w f) (end_call-Framed w f)
  step-Framed (accept_arrives u c h v) w f = accept_message-Framed u c h v w f
  step-Framed (decline_arrives v) w f = decline_arrived-Framed v w f
  step-Framed (cancel_arrives v) w f = cancel_arrived-Framed v w f
  step-Framed (found_peer c u p) w f = peer_found-Framed c u p w f
  step-Framed (data_arrives p v) w f = peer_data-Framed p v w f
  step-Framed (stream_arrives m) w f = peer_stream-Framed m w f
  step-Framed (track_arrives t m) w f = peer_track-Framed t m w f
  step-Framed disconnected w f = peer_disconnected-Framed w f
  step-Framed (captured_media p a c) w f = share_media-Framed p a c w f
  step-Framed toggle_audio w f = audio_toggle-Framed w f
  step-Framed toggle_video w f = video_toggle-Framed w f
  step-Framed (camera_answer c p i a) w f = camera_answered-Framed c p i a w f

  pub run-Framed : (es : List Event) (w : World) → Framed w.slice → Framed (run parse es w).slice
  unfolding run
  run-Framed [] w f = f
  run-Framed (e ∷ es) w f = run-Framed es (step parse e w) (step-Framed e w f)
