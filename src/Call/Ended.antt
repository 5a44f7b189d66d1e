-- ===== src/Call/Ended.antt =====
-- Where `endCall` and `rejectCall` leave a call: webapp/src/actions/index.js.
use mattermost_plugin_voices.Base.{String, true, false, none, some, ◌≡◌, refl, sym, ap, ◌∙◌, arith}
use mattermost_plugin_voices.Call.Slice.{Slice}
use mattermost_plugin_voices.Call.Reducers.{reduce}
use mattermost_plugin_voices.Call.World.{
  World, emit, open_hub, clear_decline, clear_cancel, release_call_resources, seal_decline,
}
use mattermost_plugin_voices.Call.Session.{new_session, idle}
use mathlib.Core.Bool.{false≢true}
use mattermost_plugin_voices.Call.Effect.{stop_incoming_ring, stop_outgoing_ringback}
use mattermost_plugin_voices.Call.Consistent.{Consistent, DeclineFits}
use mattermost_plugin_voices.Call.Release.{
  session-release_call_resources, release_call_resources_frame,
}
use mattermost_plugin_voices.Call.Ending.{
  end_call, reject_call, outgoing_declined, announce_cancel, announce_decline,
}

-- An operation that ends the call leaves a session that holds nothing, and a slice with no call.
pub record Ended (v : World) : Type 0 where
  pub session : v.session ≡ new_session
  pub slice : v.slice.active_call_id ≡ none
  pub state : v.slice.call_session_state ≡ idle
  pub incoming : v.slice.call_incoming ≡ false
  pub dead_decline : DeclineFits v.decline new_session v.slice.call_outgoing

pub Ended-Consistent : (v : World) → Ended v → Consistent v
Ended-Consistent v e = record {
  same_call = rw e.session (sym e.slice);
  same_state = rw e.session (sym e.state);
  settled = rw e.session;
  idle_call = λ _. rw e.session;
  idle_peer = λ _. rw e.session;
  busy_call = rw e.session (λ q. cc);
  busy_flag = rw e.session (λ q. cc);
  exclusive = rw e.incoming;
  incoming_busy = λ q. absurd (false≢true (sym e.incoming ∙ q));
  incoming_session = λ q. absurd (false≢true (sym e.incoming ∙ q));
  declines = rw e.session e.dead_decline;
}

-- What the steps of `endCall` and `rejectCall` before the release leave as it was.
record Kept (w v : World) : Type 0 where
  slice : v.slice ≡ w.slice
  call_id : v.session.call_id ≡ w.session.call_id
  peer_id : v.session.peer_id ≡ w.session.peer_id
  state : v.session.state ≡ w.session.state
  no_decline : v.decline ≡ none

abbrev before_end : World → World
before_end w =
    clear_cancel
      (clear_decline (emit stop_outgoing_ringback (emit stop_incoming_ring (announce_cancel w))))

before_end_frame : (w : World) → Kept w (before_end w)
unfolding announce_cancel open_hub emit clear_decline clear_cancel
before_end_frame w = ground arith

abbrev before_reject : World → World
before_reject w = clear_decline (announce_decline (clear_cancel (emit stop_incoming_ring w)))

before_reject_frame : (w : World) → Kept w (before_reject w)
unfolding announce_decline open_hub emit clear_decline clear_cancel
before_reject_frame w = ground arith

-- The release, on a world that differs from a consistent one as `Kept` says.
session-release-Kept :
    (w v : World)
    → Consistent w
    → Kept w v
    → (release_call_resources w.slice.active_call_id v).session ≡ new_session
session-release-Kept w v h k =
    session-release_call_resources w.slice.active_call_id v (k.call_id ∙ h.same_call)
      (rw k.state h.settled) (λ q. k.call_id ∙ h.idle_call (rw (← k.state) q))
      (λ q. k.peer_id ∙ h.idle_peer (rw (← k.state) q))

decline-release-Kept :
    (w v : World) → Kept w v → (release_call_resources w.slice.active_call_id v).decline ≡ none
decline-release-Kept w v k =
    (release_call_resources_frame w.slice.active_call_id v).3
    ∙ ap (seal_decline v.session.hubs) k.no_decline

-- From a consistent page, `endCall` leaves the session as a new one and the slice with no call, idle
-- and not incoming, with no decline listener live.
pub end_call-Ended : (w : World) → Consistent w → Ended (end_call w)
unfolding end_call reduce
end_call-Ended w h = record {
  session = session-release-Kept w (before_end w) h (before_end_frame w);
  slice = refl;
  state = refl;
  incoming = refl;
  dead_decline = rw (decline-release-Kept w (before_end w) (before_end_frame w)) tt;
}

-- From a consistent page, `rejectCall` leaves the session as a new one and the slice with no call,
-- idle and not incoming, with no decline listener live.
pub reject_call-Ended : (w : World) → Consistent w → Ended (reject_call w)
unfolding reject_call reduce
reject_call-Ended w h = record {
  session = session-release-Kept w (before_reject w) h (before_reject_frame w);
  slice = refl;
  state = refl;
  incoming = refl;
  dead_decline = rw (decline-release-Kept w (before_reject w) (before_reject_frame w)) tt;
}

pub end_call-Consistent : (w : World) → Consistent w → Consistent (end_call w)
end_call-Consistent w h = Ended-Consistent _ (end_call-Ended w h)

-- `onDecline` of a live listener ends the session, and keeps the slice's flags for the window that
-- says that the call was declined.
abbrev before_declined : World → World
before_declined w = emit stop_outgoing_ringback (clear_decline w)

before_declined_frame : (w : World) → Kept w (before_declined w)
unfolding emit clear_decline
before_declined_frame w = ground arith

pub incoming_of_outgoing :
    (w : World) → Consistent w → w.slice.call_outgoing ≡ true → w.slice.call_incoming ≡ false
incoming_of_outgoing w h o = ground (arith, h.exclusive)

-- From a consistent page whose current call is the outgoing call `call_id`, a decline leaves the
-- session as a new one and the slice with no call, idle and not incoming, with no decline listener
-- live.
pub outgoing_declined-Ended :
    (call_id : String) (w : World)
    → Consistent w
    → w.session.call_id ≡ some call_id
    → w.slice.call_outgoing ≡ true
    → Ended (outgoing_declined call_id w)
unfolding outgoing_declined reduce
outgoing_declined-Ended call_id w h c o =
    let e : some call_id ≡ w.slice.active_call_id = sym c ∙ h.same_call in
    record {
      session = rw e (session-release-Kept w (before_declined w) h (before_declined_frame w));
      slice = refl;
      state = refl;
      incoming =
          ap (λ (s : Slice). s.call_incoming)
            ((release_call_resources_frame (some call_id) (before_declined w)).2
              ∙ (before_declined_frame w).slice)
          ∙ incoming_of_outgoing w h o;
      dead_decline =
          rw e (rw (decline-release-Kept w (before_declined w) (before_declined_frame w)) tt);
    }
