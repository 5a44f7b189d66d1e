-- ===== src/Call/Delivery.antt =====
-- A cancel and a decline from one page to the other: webapp/src/actions/index.js over
-- webapp/src/utils/pluginSignalHub.js.
mod Tests
use mattermost_plugin_voices.Base.{
  String, Bool, true, false, not, ◌&&◌, Option, none, some, List, [], ◌∷◌, ◌≡◌, refl, inl, inr,
  Option-cases, push, is_set, present, arith, eq_iff, ◌==◌,
}
use mattermost_plugin_voices.Base.Js.{Value, str, obj, field, end}
use mattermost_plugin_voices.Signal.{SignalSession, relayed}
use mattermost_plugin_voices.Signal.Laws.{relayed-obj}
use mattermost_plugin_voices.Call.Effect.{Effect, broadcast, stop_incoming_ring}
use mattermost_plugin_voices.Call.Listeners.{DeclineListener, CancelListener, is_decline, is_cancel}
use mattermost_plugin_voices.Call.World.{
  World, emit, user_id, open_hub, dispatch, clear_decline, clear_cancel, release_call_resources,
}
use mattermost_plugin_voices.Call.Session.{release_resources}
use mattermost_plugin_voices.Call.Teardown.{release_log}
use mattermost_plugin_voices.Call.Ending.{
  cancel_message, decline_message, announce_cancel, announce_decline, end_call, reject_call,
  outgoing_declined,
}
use mattermost_plugin_voices.Call.Consistent.{Consistent, DeclineFits}
use mattermost_plugin_voices.Call.Ended.{Ended, end_call-Ended, outgoing_declined-Ended}
use mattermost_plugin_voices.Call.Steps.{
  end_click, cancel_arrived, decline_arrived, cancel_arrives, decline_arrives, step,
}

-- The page of a caller whose call rings, over a signalling session.
pub record RingsOut (c : String) (w : World) : Type 0 where
  pub outgoing : w.slice.call_outgoing ≡ true
  pub waiting : w.slice.peer_accepted ≡ false
  pub callee : is_set w.slice.call_peer_id ≡ true
  pub user : is_set (user_id w.user) ≡ true
  pub signal : present w.slice.active_signal_session_id ≡ true
  pub call : w.slice.active_call_id ≡ some c
  pub call_set : is_set c ≡ true

announce_cancel-RingsOut :
    (c : String) (w : World)
    → RingsOut c w
    → announce_cancel w ≡ emit (broadcast w.next (cancel_message (user_id w.user) c)) (open_hub w)
unfolding announce_cancel
announce_cancel-RingsOut c w r =
    rw (r.call, r.outgoing, r.waiting, r.callee, r.user, r.signal, r.call_set) refl

-- It is in a log, wherever.
pub data Logged (e : Effect) : List Effect → Type 0 where
  here : {log : List Effect} → Logged e (e ∷ log)
  there : {f : Effect} {log : List Effect} → Logged e log → Logged e (f ∷ log)

push-Logged : (e : Effect) (es log : List Effect) → Logged e log → Logged e (push es log)
push-Logged e [] log l = l
push-Logged e (f ∷ es) log l = push-Logged e es (f ∷ log) (there l)

released-Logged :
    (e : Effect) (id : Option String) (w : World)
    → Logged e w.log
    → Logged e (release_call_resources id w).log
released-Logged e id w l =
    rw (release_log id w) (push-Logged e (release_resources w.session).1 w.log l)

clear_decline-Logged : (e : Effect) (w : World) → Logged e w.log → Logged e (clear_decline w).log
unfolding clear_decline
clear_decline-Logged e w l = elim (Option-cases w.decline) [
  | inl n ↦ rw n l
  | inr (d, k) ↦ rw k (there l)
]

clear_cancel-Logged : (e : Effect) (w : World) → Logged e w.log → Logged e (clear_cancel w).log
unfolding clear_cancel
clear_cancel-Logged e w l = elim (Option-cases w.cancel) [
  | inl n ↦ rw n l
  | inr (d, k) ↦ rw k (there l)
]

end_call-Logged :
    (e : Effect) (w : World) → Logged e (announce_cancel w).log → Logged e (end_call w).log
unfolding end_call emit dispatch
end_call-Logged e w l =
    released-Logged e w.slice.active_call_id _
      (clear_cancel-Logged e _ (clear_decline-Logged e _ (there (there l))))

-- what `rejectCall` has done when it declines
abbrev silenced : World → World
silenced w = clear_cancel (emit stop_incoming_ring w)

reject_call-Logged :
    (e : Effect) (w : World)
    → Logged e (announce_decline (silenced w)).log
    → Logged e (reject_call w).log
unfolding reject_call dispatch
reject_call-Logged e w l = released-Logged e w.slice.active_call_id _ (clear_decline-Logged e _ l)

-- The page of a callee where a call rings.
pub record RingsIn (w : World) : Type 0 where
  pub incoming : w.slice.call_incoming ≡ true
  pub caller : is_set w.slice.call_peer_id ≡ true
  pub user : is_set (user_id w.user) ≡ true
  pub signal : present w.slice.active_signal_session_id ≡ true
  pub call : present w.slice.active_call_id ≡ true

announce_decline-RingsIn :
    (w : World)
    → RingsIn w
    → announce_decline w ≡ emit (broadcast w.next (decline_message (user_id w.user))) (open_hub w)
unfolding announce_decline
announce_decline-RingsIn w r = rw (r.incoming, r.caller, r.user, r.signal, r.call) refl

silent-RingsIn : (w v : World) → v.slice ≡ w.slice → v.user ≡ w.user → RingsIn w → RingsIn v
silent-RingsIn w v s u r = record {
  incoming = rw s r.incoming;
  caller = rw s r.caller;
  user = rw u r.user;
  signal = rw s r.signal;
  call = rw s r.call;
}

silenced-RingsIn :
    (w : World)
    → RingsIn w
    → RingsIn (silenced w)
      × ((silenced w).next ≡ w.next)
      × (user_id (silenced w).user ≡ user_id w.user)
unfolding clear_cancel emit
silenced-RingsIn w r = elim (Option-cases w.cancel) [
  | inl n ↦ rw n (silent-RingsIn w _ refl refl r, refl, refl)
  | inr (d, k) ↦ rw k (silent-RingsIn w _ refl refl r, refl, refl)
]

end_call-announces :
    (c : String) (w : World)
    → RingsOut c w
    → Logged (broadcast w.next (cancel_message (user_id w.user) c)) (end_call w).log
unfolding emit
end_call-announces c w r = end_call-Logged _ w (rw (announce_cancel-RingsOut c w r) here)

reject_call-announces :
    (w : World)
    → RingsIn w
    → Logged (broadcast w.next (decline_message (user_id w.user))) (reject_call w).log
unfolding emit
reject_call-announces w r =
    let (k, n, u) = silenced-RingsIn w r in
    reject_call-Logged _ w (rw (announce_decline-RingsIn (silenced w) k, n, u) here)

module _ (parse : String → Option Value) where
  cancel_arrived-heard :
      (l : CancelListener) (v : World)
      → v.cancel ≡ some l
      → l.live ≡ true
      → is_set l.caller_id ≡ true
      → cancel_arrived parse (cancel_message l.caller_id l.call_id) v ≡ end_call v
  unfolding cancel_arrived is_cancel
  cancel_arrived-heard l v e live s =
      ground (arith, eq_iff l.caller_id l.caller_id, eq_iff l.call_id l.call_id)

  -- A caller who hangs up while the call rings broadcasts a cancel on a hub of its own, and when the
  -- session delivers it to the consistent page of the callee where that call rings, with a live
  -- listener, the call ends there too.
  pub cancel_ends_ring :
      (c : String) (s : SignalSession) (l : CancelListener) (w v : World)
      → RingsOut c w
      → Consistent v
      → v.cancel ≡ some l
      → l.live ≡ true
      → l.caller_id ≡ user_id w.user
      → l.call_id ≡ c
      → is_set s.session_id ≡ true
      → s.version ≡ 1
      → Logged (broadcast w.next (cancel_message (user_id w.user) c)) (step parse end_click w).log
        × ((m : Value) × (relayed (user_id w.user) s (cancel_message (user_id w.user) c) ≡ some m)
            × Ended (step parse (cancel_arrives m) v))
  unfolding step
  cancel_ends_ring c s l w v r h e live same_caller same_call i n = (
    end_call-announces c w r,
    (
      cancel_message (user_id w.user) c,
      relayed-obj (user_id w.user) s _ r.user i n,
      rw (← same_caller, ← same_call, cancel_arrived-heard l v e live (rw same_caller r.user))
          (end_call-Ended v h),
    ),
  )

  decline_arrived-heard :
      (l : DeclineListener) (v : World)
      → v.decline ≡ some l
      → l.live ≡ true
      → is_set l.callee_id ≡ true
      → decline_arrived parse (decline_message l.callee_id) v ≡ outgoing_declined l.call_id v
  unfolding decline_arrived is_decline
  decline_arrived-heard l v e live s = ground (arith, eq_iff l.callee_id l.callee_id)

  fits :
      (d : Option DeclineListener) (l : DeclineListener) (v : World)
      → d ≡ some l
      → l.live ≡ true
      → DeclineFits d v.session v.slice.call_outgoing
      → (v.session.call_id ≡ some l.call_id) × (v.slice.call_outgoing ≡ true)
  fits d l v e live h = let k = (rw e at h) live in (k.0, k.2)

  -- A callee who declines the call that comes in broadcasts a decline on a hub of its own, and when
  -- the session delivers it to the consistent page of the caller where a live listener waits for
  -- that callee, the call ends there too.
  pub decline_ends_call :
      (s : SignalSession) (l : DeclineListener) (w v : World)
      → RingsIn w
      → Consistent v
      → v.decline ≡ some l
      → l.live ≡ true
      → l.callee_id ≡ user_id w.user
      → is_set s.session_id ≡ true
      → s.version ≡ 1
      → Logged (broadcast w.next (decline_message (user_id w.user))) (reject_call w).log
        × ((m : Value) × (relayed (user_id w.user) s (decline_message (user_id w.user)) ≡ some m)
            × Ended (step parse (decline_arrives m) v))
  unfolding step
  decline_ends_call s l w v r h e live same_callee i n =
      let (c, o) = fits v.decline l v e live h.declines in
      (
        reject_call-announces w r,
        (
          decline_message (user_id w.user),
          relayed-obj (user_id w.user) s _ r.user i n,
          rw (← same_callee, decline_arrived-heard l v e live (rw same_callee r.user))
              (outgoing_declined-Ended l.call_id v h c o),
        ),
      )
