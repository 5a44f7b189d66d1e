-- ===== src/Call/Invariance.antt =====
-- The events of Call/Steps.antt against the agreement of slice and call session in
-- Call/Consistent.antt.
mod Placing
pub mod Answering
mod Sharing
use mattermost_plugin_voices.Base.{
  ℕ, String, Bool, true, false, Option, none, some, List, [], ◌∷◌, ◌≡◌, refl, ◌⊎◌, inl, inr, arith,
  Option-cases, Bool-cases, ◌&&◌, not,
}
use mattermost_plugin_voices.Base.Js.{Value}
use mattermost_plugin_voices.Users.{User}
use mattermost_plugin_voices.Call.Reducers.{reduce}
use mattermost_plugin_voices.Call.Slice.{Config, Action}
use mattermost_plugin_voices.Call.Listeners.{DeclineListener, is_decline, is_cancel}
use mattermost_plugin_voices.Call.World.{World, new_world, dispatch}
use mattermost_plugin_voices.Call.Placing.{post_invite}
use mattermost_plugin_voices.Call.Ending.{post_declined}
use mattermost_plugin_voices.Call.Answering.{listen_video_call}
use mattermost_plugin_voices.Call.Ending.{end_call, outgoing_declined}
use mattermost_plugin_voices.Call.Consistent.{
  Consistent, DeclineFits, Untouched, Untouched-Consistent, new_world-Consistent,
}
use mattermost_plugin_voices.Call.Ended.{
  end_call-Consistent, Ended-Consistent, reject_call-Ended, outgoing_declined-Ended,
}
use mattermost_plugin_voices.Call.Steps.{
  Event, config_loaded, listen, open_picker, close_picker, place, posted, declined_posted,
  session_answer, invite_answer, inbox, accept_click, reject_click, end_click, modal_close,
  accept_arrives, decline_arrives, cancel_arrives, found_peer, data_arrives, stream_arrives,
  track_arrives, disconnected, captured_media, toggle_audio, toggle_video, camera_answer,
  accept_clicked, reject_clicked, modal_closed, decline_arrived, cancel_arrived, step, run, asks,
}
use Placing.{make_video_call-Consistent, session_created-Consistent, invite_answered-Consistent}
use Answering.{inbox_message-Consistent, accept_message-Consistent, accept_call-Consistent}
use Sharing.{
  share_media-Untouched, peer_data-Untouched, peer_stream-Untouched, peer_track-Untouched,
  audio_toggle-Untouched, video_toggle-Untouched, camera_answered-Untouched, peer_found-Consistent,
  peer_disconnected-Consistent,
}

load_config-Untouched : (c : Config) (w : World) → Untouched w (dispatch (Action.load_config c) w)
unfolding dispatch reduce
load_config-Untouched c w = ground arith

open_picker-Untouched :
    (hint : Option String) (w : World)
    → Untouched w (dispatch (Action.open_video_call_picker hint) w)
unfolding dispatch reduce
open_picker-Untouched hint w = ground arith

close_picker-Untouched : (w : World) → Untouched w (dispatch Action.close_video_call_picker w)
unfolding dispatch reduce
close_picker-Untouched w = ground arith

listen-Untouched : (w : World) → Untouched w (listen_video_call w)
unfolding listen_video_call reduce
listen-Untouched w = ground arith

declined_posted-Untouched :
    (known ensured : Option String) (caller_id : String) (w : World)
    → Untouched w (post_declined known ensured caller_id w)
unfolding post_declined
declined_posted-Untouched (some c) ensured caller_id w = ground arith
declined_posted-Untouched none (some c) caller_id w = ground arith
declined_posted-Untouched none none caller_id w = ground arith

posted-Untouched :
    (known ensured : Option String) (peer_id call_id : String) (w : World)
    → Untouched w (post_invite known ensured peer_id call_id w)
unfolding post_invite
posted-Untouched (some c) ensured peer_id call_id w = ground arith
posted-Untouched none (some c) peer_id call_id w = ground arith
posted-Untouched none none peer_id call_id w = ground arith

asks_incoming : (w : World) → asks w ≡ true → w.slice.call_incoming ≡ true
asks_incoming w a = ground arith

accept_clicked-Consistent : (w : World) → Consistent w → Consistent (accept_clicked w)
unfolding accept_clicked
accept_clicked-Consistent w h = elim (Bool-cases (asks w)) [
  | inl a ↦ rw a (accept_call-Consistent w h (asks_incoming w a))
  | inr a ↦ rw a h
]

reject_clicked-Consistent : (w : World) → Consistent w → Consistent (reject_clicked w)
unfolding reject_clicked
reject_clicked-Consistent w h = elim (Bool-cases (asks w)) [
  | inl a ↦ rw a (Ended-Consistent _ (reject_call-Ended w h))
  | inr a ↦ rw a h
]

modal_closed-Consistent : (w : World) → Consistent w → Consistent (modal_closed w)
unfolding modal_closed
modal_closed-Consistent w h =
    elim (Bool-cases (w.slice.call_incoming && not w.slice.call_accepted)) [
      | inl a ↦ rw a (Ended-Consistent _ (reject_call-Ended w h))
      | inr a ↦ rw a (end_call-Consistent w h)
    ]

module _ (parse : String → Option Value) where
  decline_arrived-cases :
      (payload : Value) (w : World)
      → Consistent w
      → (decline_arrived parse payload w ≡ w)
        ⊎ ((c : String) × (w.session.call_id ≡ some c)
            × (w.slice.call_outgoing ≡ true)
            × (decline_arrived parse payload w ≡ outgoing_declined c w))
  unfolding decline_arrived
  decline_arrived-cases payload w h = at w.decline refl h.declines
    where
      at :
          (d : Option DeclineListener)
          → w.decline ≡ d
          → DeclineFits d w.session w.slice.call_outgoing
          → (decline_arrived parse payload w ≡ w)
            ⊎ ((c : String) × (w.session.call_id ≡ some c)
                × (w.slice.call_outgoing ≡ true)
                × (decline_arrived parse payload w ≡ outgoing_declined c w))
      at none e f = inl (ground arith)
      at (some l) e f = elim (Bool-cases (l.live && is_decline parse l payload)) [
        | inl t ↦ let k = f (ground arith) in inr (l.call_id, k.0, k.2, ground arith)
        | inr t ↦ inl (ground arith)
      ]

  decline_arrived-Consistent :
      (payload : Value) (w : World) → Consistent w → Consistent (decline_arrived parse payload w)
  decline_arrived-Consistent payload w h = elim (decline_arrived-cases payload w h) [
    | inl e ↦ rw e h
    | inr (c, s, o, e) ↦ rw e (Ended-Consistent _ (outgoing_declined-Ended c w h s o))
  ]

  pub cancel_arrived-cases :
      (payload : Value) (w : World)
      → (cancel_arrived parse payload w ≡ w) ⊎ (cancel_arrived parse payload w ≡ end_call w)
  unfolding cancel_arrived
  cancel_arrived-cases payload w = ground arith

  cancel_arrived-Consistent :
      (payload : Value) (w : World) → Consistent w → Consistent (cancel_arrived parse payload w)
  cancel_arrived-Consistent payload w h = elim (cancel_arrived-cases payload w) [
    | inl e ↦ rw e h
    | inr e ↦ rw e (end_call-Consistent w h)
  ]

  -- Every event keeps the agreement.
  pub step-Consistent : (e : Event) (w : World) → Consistent w → Consistent (step parse e w)
  unfolding step
  step-Consistent (config_loaded c) w h = Untouched-Consistent w _ h (load_config-Untouched c w)
  step-Consistent listen w h = Untouched-Consistent w _ h (listen-Untouched w)
  step-Consistent (open_picker hint) w h = Untouched-Consistent w _ h (open_picker-Untouched hint w)
  step-Consistent close_picker w h = Untouched-Consistent w _ h (close_picker-Untouched w)
  step-Consistent (place c p a) w h = make_video_call-Consistent c p a w h
  step-Consistent (declined_posted k e c) w h =
      Untouched-Consistent w _ h (declined_posted-Untouched k e c w)
  step-Consistent (posted k e p c) w h = Untouched-Consistent w _ h (posted-Untouched k e p c w)
  step-Consistent (session_answer c p a s) w h = session_created-Consistent c p a s w h
  step-Consistent (invite_answer c hub ok) w h = invite_answered-Consistent c hub ok w h
  step-Consistent (inbox raw) w h = inbox_message-Consistent raw w h
  step-Consistent accept_click w h = accept_clicked-Consistent w h
  step-Consistent reject_click w h = reject_clicked-Consistent w h
  step-Consistent end_click w h = end_call-Consistent w h
  step-Consistent modal_close w h = modal_closed-Consistent w h
  step-Consistent (accept_arrives u c hub m) w h = accept_message-Consistent u c hub m w h
  step-Consistent (decline_arrives m) w h = decline_arrived-Consistent m w h
  step-Consistent (cancel_arrives m) w h = cancel_arrived-Consistent m w h
  step-Consistent (found_peer c u p) w h = peer_found-Consistent c u p w h
  step-Consistent (data_arrives p m) w h = Untouched-Consistent w _ h (peer_data-Untouched p m w)
  step-Consistent (stream_arrives m) w h = Untouched-Consistent w _ h (peer_stream-Untouched m w)
  step-Consistent (track_arrives t m) w h = Untouched-Consistent w _ h (peer_track-Untouched t m w)
  step-Consistent disconnected w h = peer_disconnected-Consistent w h
  step-Consistent (captured_media p a c) w h =
      Untouched-Consistent w _ h (share_media-Untouched p a c w)
  step-Consistent toggle_audio w h = Untouched-Consistent w _ h (audio_toggle-Untouched w)
  step-Consistent toggle_video w h = Untouched-Consistent w _ h (video_toggle-Untouched w)
  step-Consistent (camera_answer c p i a) w h =
      Untouched-Consistent w _ h (camera_answered-Untouched c p i a w)

  run-Consistent_from : (es : List Event) (w : World) → Consistent w → Consistent (run parse es w)
  unfolding run
  run-Consistent_from [] w h = h
  run-Consistent_from (e ∷ es) w h = run-Consistent_from es _ (step-Consistent e w h)

  -- After any events at all on a page that has just loaded, the slice and the call session agree on
  -- the call and its state, an incoming and an outgoing call exclude one another, an incoming call has
  -- a signalling session, and a decline listener that is live belongs to the current outgoing call.
  pub run-Consistent :
      (user : Option User) (profiles : String → Option User) (es : List Event)
      → Consistent (run parse es (new_world user profiles))
  run-Consistent user profiles es = run-Consistent_from es _ (new_world-Consistent user profiles)
