-- ===== src/Call/Invariance/Placing.antt =====
-- Placing a call, Call/Placing.antt, against Call/Consistent.antt.
use mattermost_plugin_voices.Base.{
  ℕ, String, Bool, true, false, Option, none, some, [], ◌∷◌, ◌≡◌, refl, sym, ◌∙◌, ◌⊎◌, inl, inr,
  contains_id, arith, same→eq, any-append, eqb, sym, ◌∙◌, Bool-cases,
}
use mattermost_plugin_voices.Call.Slice.{Action}
use mattermost_plugin_voices.Call.Reducers.{reduce}
use mattermost_plugin_voices.Call.World.{World, emit, dispatch, open_hub, release_call_resources}
use mattermost_plugin_voices.Call.Session.{new_session, fail, failed}
use mathlib.Core.Bool.{false≢true}
use mattermost_plugin_voices.Call.Effect.{stop_outgoing_ringback}
use mattermost_plugin_voices.Call.Consistent.{
  Consistent, DeclineFits, SameCall, SameCall-Consistent,
}
use mattermost_plugin_voices.Call.Release.{
  session-release_call_resources, release_call_resources_frame, DeclineFits-seal,
  DeclineFits-seal_decline, DeclineFits-open_hub,
}
use mathlib.Core.Bool.{false≢true}
use mattermost_plugin_voices.Call.Ended.{Ended, Ended-Consistent, incoming_of_outgoing}
use mattermost_plugin_voices.Call.Placing.{
  make_video_call, session_created, invite_answered, signalling_failed, start_outgoing, is_current,
  hub_ready, close_one,
}

before_failed : String → World → World
unfolding fail
before_failed call_id w =
    let v = emit stop_outgoing_ringback w in
    dispatch (Action.call_session_transition failed)
      (record v { session = (fail (some call_id) v.session).0 })

session-before_failed :
    (call_id : String) (w : World)
    → Consistent w
    → is_current call_id w ≡ true
    → (release_call_resources (some call_id) (before_failed call_id w)).session ≡ new_session
unfolding before_failed emit dispatch
session-before_failed call_id w h c =
    session-release_call_resources (some call_id) (before_failed call_id w)
      (ground (arith, h, same→eq w.slice.active_call_id (some call_id))) (ground (arith, h))
      (ground (arith, h)) (ground (arith, h))

-- The decline listener is not live once the hubs of the call are closed.
decline-before_failed :
    (call_id : String) (w : World) (o : Bool)
    → Consistent w
    → DeclineFits
        (release_call_resources (some call_id) (before_failed call_id w)).decline
        new_session
        o
unfolding before_failed emit dispatch
decline-before_failed call_id w o h =
    rw (release_call_resources_frame (some call_id) (before_failed call_id w)).3 (
      rw hubs-fail
        (DeclineFits-seal_decline w.decline w.session w.slice.call_outgoing o h.declines))
  where
    hubs-fail : (fail (some call_id) w.session).0.hubs ≡ w.session.hubs
    hubs-fail = ground arith

signalling_failed_stale :
    (call_id : String) (w : World) → is_current call_id w ≡ false → signalling_failed call_id w ≡ w
unfolding signalling_failed
signalling_failed_stale call_id w c = ground arith

pub signalling_failed-Ended :
    (call_id : String) (w : World)
    → Consistent w
    → is_current call_id w ≡ true
    → Ended (signalling_failed call_id w)
unfolding signalling_failed before_failed reduce
signalling_failed-Ended call_id w h c =
    rw (c, signalling_failed)
      (record {
        session = session-before_failed call_id w h c;
        slice = refl;
        state = refl;
        incoming = refl;
        dead_decline = decline-before_failed call_id w false h;
      })

signalling_failed-Consistent :
    (call_id : String) (w : World) → Consistent w → Consistent (signalling_failed call_id w)
signalling_failed-Consistent call_id w h = elim (Bool-cases (is_current call_id w)) [
  | inl c ↦ Ended-Consistent _ (signalling_failed-Ended call_id w h c)
  | inr c ↦ rw (signalling_failed_stale call_id w c) h
]

close_one-Consistent : (hub : ℕ) (w : World) → Consistent w → Consistent (close_one hub w)
unfolding close_one emit
close_one-Consistent hub w h = record {
  same_call = h.same_call;
  same_state = h.same_state;
  settled = h.settled;
  idle_call = h.idle_call;
  idle_peer = h.idle_peer;
  busy_call = h.busy_call;
  busy_flag = h.busy_flag;
  exclusive = h.exclusive;
  incoming_busy = h.incoming_busy;
  incoming_session = h.incoming_session;
  declines = DeclineFits-seal (hub ∷ []) w.decline w.session w.slice.call_outgoing h.declines;
}

pub open_hub-Consistent : (w : World) → Consistent w → Consistent (open_hub w)
unfolding open_hub
open_hub-Consistent w h = record {
  same_call = h.same_call;
  same_state = h.same_state;
  settled = h.settled;
  idle_call = h.idle_call;
  idle_peer = h.idle_peer;
  busy_call = h.busy_call;
  busy_flag = h.busy_flag;
  exclusive = h.exclusive;
  incoming_busy = h.incoming_busy;
  incoming_session = h.incoming_session;
  declines = DeclineFits-open_hub w w.slice.call_outgoing h.declines;
}

hub_ready_frame :
    (call_id peer_id session_id : String) (audio_only : Bool) (hub : ℕ) (w : World)
    → let v = hub_ready call_id peer_id session_id audio_only hub w in
      SameCall w v
      × (v.session ≡ w.session)
      × (v.decline
          ≡ some (record { hub = hub; callee_id = peer_id; call_id = call_id; live = true }))
unfolding hub_ready reduce
hub_ready_frame call_id peer_id session_id audio_only hub w = ground arith

outgoing_of_current :
    (call_id : String) (w : World) → is_current call_id w ≡ true → w.slice.call_outgoing ≡ true
outgoing_of_current call_id w c = ground arith

pub contains-open_hub : (w : World) → contains_id w.next (open_hub w).session.hubs ≡ true
unfolding open_hub
contains-open_hub w = ground (arith, any-append (λ x. eqb x w.next) w.session.hubs (w.next ∷ []))

-- `onHub` attaches a listener for the current call, to a hub that the session tracks.
hub_ready-Consistent :
    (call_id peer_id session_id : String) (audio_only : Bool) (hub : ℕ) (w : World)
    → Consistent w
    → is_current call_id w ≡ true
    → contains_id hub w.session.hubs ≡ true
    → Consistent (hub_ready call_id peer_id session_id audio_only hub w)
unfolding hub_ready reduce
hub_ready-Consistent call_id peer_id session_id audio_only hub w h c m =
    SameCall-Consistent w _ h (hub_ready_frame call_id peer_id session_id audio_only hub w).0
      (λ q. absurd (
        false≢true (
          sym (incoming_of_outgoing w h (outgoing_of_current call_id w c))
          ∙ sym (hub_ready_frame call_id peer_id session_id audio_only hub w).0.incoming
          ∙ q)))
      (ground (
        arith,
        hub_ready_frame call_id peer_id session_id audio_only hub w,
        same→eq w.slice.active_call_id (some call_id),
        h.same_call,
      ))

pub session_created-Consistent :
    (call_id peer_id : String) (audio_only : Bool) (answer : Option String) (w : World)
    → Consistent w
    → Consistent (session_created call_id peer_id audio_only answer w)
unfolding session_created
session_created-Consistent call_id peer_id audio_only none w h =
    signalling_failed-Consistent call_id w h
session_created-Consistent call_id peer_id audio_only (some session_id) w h =
    elim (Bool-cases (is_current call_id (open_hub w))) [
      | inl c ↦ rw c (
          hub_ready-Consistent call_id peer_id session_id audio_only w.next _
            (open_hub-Consistent w h) c (contains-open_hub w))
      | inr c ↦ rw c (close_one-Consistent w.next _ (open_hub-Consistent w h))
    ]

pub invite_answered-Consistent :
    (call_id : String) (hub : ℕ) (delivered : Bool) (w : World)
    → Consistent w
    → Consistent (invite_answered call_id hub delivered w)
unfolding invite_answered
invite_answered-Consistent call_id hub true w h = h
invite_answered-Consistent call_id hub false w h =
    signalling_failed-Consistent call_id _ (close_one-Consistent hub w h)

start_outgoing-Consistent :
    (c p : String) (a : Bool) (w : World)
    → Consistent w
    → w.slice.call_incoming ≡ false
    → w.slice.call_outgoing ≡ false
    → Consistent (start_outgoing c p a w)
unfolding start_outgoing reduce
start_outgoing-Consistent c p a w h i o = ground arith

-- `makeVideoCall` leaves the world alone, or places the call.
pub make_video_call-cases :
    (c p : String) (a : Bool) (w : World)
    → (make_video_call c p a w ≡ w)
      ⊎ ((w.slice.call_incoming ≡ false)
          × (w.slice.call_outgoing ≡ false)
          × (make_video_call c p a w ≡ start_outgoing c p a w))
unfolding make_video_call
make_video_call-cases c p a w = ground arith

pub make_video_call-Consistent :
    (c p : String) (a : Bool) (w : World) → Consistent w → Consistent (make_video_call c p a w)
make_video_call-Consistent c p a w h = elim (make_video_call-cases c p a w) [
  | inl e ↦ rw e h
  | inr (i, o, e) ↦ rw e (start_outgoing-Consistent c p a w h i o)
]
