-- ===== src/Call/Consistent.antt =====
-- The agreement of the slice and the call session that the code means to keep between two events.
use mattermost_plugin_voices.Base.{
  String, Bool, true, false, ◌&&◌, ◌||◌, Option, none, some, ◌≡◌, sym, ◌∙◌, contains_id, present,
  arith,
}
use mathlib.Core.Bool.{false≢true}
use mattermost_plugin_voices.Users.{User}
use mattermost_plugin_voices.Call.Session.{CallSession, SessionState, ending, is_idle}
use mattermost_plugin_voices.Call.Listeners.{DeclineListener}
use mattermost_plugin_voices.Call.World.{World, new_world}

-- A decline listener that is live belongs to the current call, which is an outgoing one, and to one
-- of its hubs.
abbrev pub DeclineFits : Option DeclineListener → CallSession → (outgoing : Bool) → Type 0
DeclineFits none s outgoing = Unit {0}
DeclineFits (some l) s outgoing =
    l.live ≡ true
    → (s.call_id ≡ some l.call_id) × (contains_id l.hub s.hubs ≡ true) × (outgoing ≡ true)

abbrev pub is_ending : SessionState → Bool
is_ending ending = true
is_ending _ = false

pub record Consistent (w : World) : Type 0 where
  pub same_call : w.session.call_id ≡ w.slice.active_call_id
  pub same_state : w.session.state ≡ w.slice.call_session_state
  pub settled : is_ending w.session.state ≡ false
  pub idle_call : is_idle w.session.state ≡ true → w.session.call_id ≡ none
  pub idle_peer : is_idle w.session.state ≡ true → w.session.peer_id ≡ none
  pub busy_call : is_idle w.session.state ≡ false → present w.session.call_id ≡ true
  pub busy_flag :
      is_idle w.session.state ≡ false → (w.slice.call_incoming || w.slice.call_outgoing) ≡ true
  pub exclusive : (w.slice.call_incoming && w.slice.call_outgoing) ≡ false
  pub incoming_busy : w.slice.call_incoming ≡ true → is_idle w.session.state ≡ false
  pub incoming_session :
      w.slice.call_incoming ≡ true → present w.slice.active_signal_session_id ≡ true
  pub declines : DeclineFits w.decline w.session w.slice.call_outgoing

pub new_world-Consistent :
    (user : Option User) (profiles : String → Option User) → Consistent (new_world user profiles)
new_world-Consistent user profiles = ground arith

-- What an event that does not start, answer or end a call leaves as it was.
pub record SameCall (w v : World) : Type 0 where
  pub call_id : v.session.call_id ≡ w.session.call_id
  pub peer_id : v.session.peer_id ≡ w.session.peer_id
  pub state : v.session.state ≡ w.session.state
  pub active : v.slice.active_call_id ≡ w.slice.active_call_id
  pub shown_state : v.slice.call_session_state ≡ w.slice.call_session_state
  pub incoming : v.slice.call_incoming ≡ w.slice.call_incoming
  pub outgoing : v.slice.call_outgoing ≡ w.slice.call_outgoing

pub SameCall-Consistent :
    (w v : World)
    → Consistent w
    → SameCall w v
    → (v.slice.call_incoming ≡ true → present v.slice.active_signal_session_id ≡ true)
    → DeclineFits v.decline v.session v.slice.call_outgoing
    → Consistent v
SameCall-Consistent w v h e signal d = record {
  same_call = e.call_id ∙ h.same_call ∙ sym e.active;
  same_state = e.state ∙ h.same_state ∙ sym e.shown_state;
  settled = rw e.state h.settled;
  idle_call = λ q. e.call_id ∙ h.idle_call (rw (← e.state) q);
  idle_peer = λ q. e.peer_id ∙ h.idle_peer (rw (← e.state) q);
  busy_call = λ q. rw e.call_id (h.busy_call (rw (← e.state) q));
  busy_flag = λ q. rw (e.incoming, e.outgoing) (h.busy_flag (rw (← e.state) q));
  exclusive = rw (e.incoming, e.outgoing) h.exclusive;
  incoming_busy = λ q. rw e.state (h.incoming_busy (rw (← e.incoming) q));
  incoming_session = signal;
  declines = d;
}

-- What an event that takes a call forward to the state `to` does.
pub record Advanced (to : SessionState) (w v : World) : Type 0 where
  pub was_busy : is_idle w.session.state ≡ false
  pub call_id : v.session.call_id ≡ w.session.call_id
  pub peer_id : v.session.peer_id ≡ w.session.peer_id
  pub state : v.session.state ≡ to
  pub active : v.slice.active_call_id ≡ w.slice.active_call_id
  pub shown_state : v.slice.call_session_state ≡ to
  pub incoming : v.slice.call_incoming ≡ w.slice.call_incoming
  pub outgoing : v.slice.call_outgoing ≡ w.slice.call_outgoing
  pub signal : v.slice.active_signal_session_id ≡ w.slice.active_signal_session_id

pub Advanced-Consistent :
    (to : SessionState) (w v : World)
    → is_idle to ≡ false
    → is_ending to ≡ false
    → Consistent w
    → Advanced to w v
    → DeclineFits v.decline v.session v.slice.call_outgoing
    → Consistent v
Advanced-Consistent to w v live going h e d = record {
  same_call = e.call_id ∙ h.same_call ∙ sym e.active;
  same_state = e.state ∙ sym e.shown_state;
  settled = rw e.state going;
  idle_call = λ q. absurd (false≢true (sym live ∙ (rw e.state at q)));
  idle_peer = λ q. absurd (false≢true (sym live ∙ (rw e.state at q)));
  busy_call = λ q. rw e.call_id (h.busy_call e.was_busy);
  busy_flag = λ q. rw (e.incoming, e.outgoing) (h.busy_flag e.was_busy);
  exclusive = rw (e.incoming, e.outgoing) h.exclusive;
  incoming_busy = λ q. rw e.state live;
  incoming_session = λ q. rw e.signal (h.incoming_session (rw (← e.incoming) q));
  declines = d;
}

-- Whether a listener fits rests on the session's call and hubs alone.
pub DeclineFits-same :
    (d : Option DeclineListener) (s t : CallSession) (o : Bool)
    → t.call_id ≡ s.call_id
    → t.hubs ≡ s.hubs
    → DeclineFits d s o
    → DeclineFits d t o
DeclineFits-same none s t o c k h = tt
DeclineFits-same (some l) s t o c k h = λ live. (c ∙ (h live).0, rw k (h live).1, (h live).2)

-- What an event does that leaves the call and its listener alone.
pub record Untouched (w v : World) : Type 0 where
  pub same : SameCall w v
  pub hubs : v.session.hubs ≡ w.session.hubs
  pub decline : v.decline ≡ w.decline
  pub signal : v.slice.active_signal_session_id ≡ w.slice.active_signal_session_id

pub Untouched-Consistent : (w v : World) → Consistent w → Untouched w v → Consistent v
Untouched-Consistent w v h e =
    SameCall-Consistent w v h e.same
      (λ q. rw e.signal (h.incoming_session (rw (← e.same.incoming) q)))
      (rw (e.decline, e.same.outgoing)
        (DeclineFits-same w.decline w.session v.session w.slice.call_outgoing e.same.call_id e.hubs
          h.declines))
