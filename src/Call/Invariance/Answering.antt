-- ===== src/Call/Invariance/Answering.antt =====
-- Receiving and answering a call, Call/Answering.antt, against Call/Consistent.antt.
use mattermost_plugin_voices.Base.{
  ℕ, String, true, false, none, ◌≡◌, refl, ◌∙◌, ◌⊎◌, inl, inr, is_set, arith, Option-cases,
  same_refl,
}
use mattermost_plugin_voices.Base.Js.{Value}
use mattermost_plugin_voices.Call.Effect.{stop_incoming_ring}
use mattermost_plugin_voices.Call.Reducers.{reduce}
use mattermost_plugin_voices.Call.World.{World, emit, clear_cancel, open_hub}
use mattermost_plugin_voices.Call.Session.{begin_connecting, start, connecting, is_idle}
use mattermost_plugin_voices.Call.Consistent.{
  Consistent, DeclineFits-same, Advanced, Advanced-Consistent, Untouched, Untouched-Consistent,
}
use mattermost_plugin_voices.Call.Release.{DeclineFits-open_hub}
use mattermost_plugin_voices.Call.Answering.{
  Invite, ring_incoming, receive_video_call, inbox_message, parse_authorized_call_invite,
  accept_message, connect_callee, accept_call, answer, open_tracked_swarm,
}

-- `receiveVideoCall` leaves the world alone, or rings.
pub receive_video_call-cases :
    (i : Invite) (w : World)
    → (receive_video_call i w ≡ w)
      ⊎ ((w.slice.call_incoming ≡ false)
          × (w.slice.call_outgoing ≡ false)
          × (is_set i.signal_session_id ≡ true)
          × ((start i.call_id i.caller_id w.session).1 ≡ true)
          × (receive_video_call i w
              ≡ ring_incoming i (record w { session = (start i.call_id i.caller_id w.session).0 })))
unfolding receive_video_call
receive_video_call-cases i w = ground arith

-- Before the call rings nothing is live: the session was idle.
rung-Consistent :
    (i : Invite) (w : World)
    → Consistent w
    → w.slice.call_incoming ≡ false
    → w.slice.call_outgoing ≡ false
    → is_set i.signal_session_id ≡ true
    → (start i.call_id i.caller_id w.session).1 ≡ true
    → Consistent
        (ring_incoming i (record w { session = (start i.call_id i.caller_id w.session).0 }))
unfolding ring_incoming start reduce
rung-Consistent i w h no_in no_out s st = ground arith

receive_video_call-Consistent :
    (i : Invite) (w : World) → Consistent w → Consistent (receive_video_call i w)
receive_video_call-Consistent i w h = elim (receive_video_call-cases i w) [
  | inl e ↦ rw e h
  | inr (no_in, no_out, s, started, e) ↦ rw e (rung-Consistent i w h no_in no_out s started)
]

pub inbox_message-Consistent :
    (raw : Value) (w : World) → Consistent w → Consistent (inbox_message raw w)
unfolding inbox_message
inbox_message-Consistent raw w h = elim (Option-cases (parse_authorized_call_invite raw)) [
  | inl e ↦ rw (e, inbox_message) h
  | inr (i, e) ↦ rw (e, inbox_message) (receive_video_call-Consistent i w h)
]

accept_message-cases :
    (caller_id call_id : String) (hub : ℕ) (m : Value) (w : World)
    → let v = accept_message caller_id call_id hub m w in
      (v ≡ w) ⊎ (Advanced connecting w v × (v.decline ≡ none))
unfolding accept_message open_tracked_swarm reduce
accept_message-cases caller_id call_id hub m w = ground arith

pub accept_message-Consistent :
    (caller_id call_id : String) (hub : ℕ) (m : Value) (w : World)
    → Consistent w
    → Consistent (accept_message caller_id call_id hub m w)
accept_message-Consistent caller_id call_id hub m w h =
    elim (accept_message-cases caller_id call_id hub m w) [
      | inl e ↦ rw e h
      | inr (a, d) ↦ Advanced-Consistent connecting w _ refl refl h a (rw d tt)
    ]

begin_connecting-busy :
    (w : World)
    → Consistent w
    → w.slice.call_incoming ≡ true
    → begin_connecting w.slice.active_call_id w.session
      ≡ (record w.session { state = connecting }, true)
unfolding begin_connecting
begin_connecting-busy w h i = ground (arith, h, same_refl w.slice.active_call_id)

-- Behind the window that asks, both guards of `acceptCall` that end the call hold: only a page with
-- no user is left as it was.
answer-cases :
    (w : World)
    → Consistent w
    → w.slice.call_incoming ≡ true
    → (answer w ≡ w)
      ⊎ (answer w ≡ connect_callee (record w { session = record w.session { state = connecting } }))
unfolding answer
answer-cases w h i =
    rw (begin_connecting-busy w h i)
      (ground (arith, h.same_call, h.incoming_session i, h.busy_call (h.incoming_busy i)))

connect_callee_frame :
    (w : World)
    → is_idle w.session.state ≡ false
    → let v = connect_callee (record w { session = record w.session { state = connecting } }) in
      Advanced connecting w v
      × (v.decline ≡ w.decline)
      × (v.session.call_id ≡ (open_hub w).session.call_id)
      × (v.session.hubs ≡ (open_hub w).session.hubs)
unfolding connect_callee open_hub emit open_tracked_swarm reduce
connect_callee_frame w b = ground arith

answer-Consistent :
    (w : World) → Consistent w → w.slice.call_incoming ≡ true → Consistent (answer w)
answer-Consistent w h i = elim (answer-cases w h i) [
  | inl e ↦ rw e h
  | inr e ↦
      let f = connect_callee_frame w (h.incoming_busy i) in
      rw e (
        Advanced-Consistent connecting w _ refl refl h f.0 (
          rw (f.1, f.0.outgoing)
            (DeclineFits-same w.decline (open_hub w).session _ w.slice.call_outgoing f.2 f.3
              (DeclineFits-open_hub w w.slice.call_outgoing h.declines))))
]

stopped_frame :
    (w : World)
    → let v = clear_cancel (emit stop_incoming_ring w) in
      Untouched w v × (v.slice.call_incoming ≡ w.slice.call_incoming)
unfolding clear_cancel emit
stopped_frame w = ground arith

pub accept_call-Consistent :
    (w : World) → Consistent w → w.slice.call_incoming ≡ true → Consistent (accept_call w)
unfolding accept_call
accept_call-Consistent w h i =
    answer-Consistent (clear_cancel (emit stop_incoming_ring w))
      (Untouched-Consistent w _ h (stopped_frame w).0) ((stopped_frame w).1 ∙ i)
