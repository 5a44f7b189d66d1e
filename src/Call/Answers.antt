-- ===== src/Call/Answers.antt =====
-- What the caller's page makes of the callee's answer: the handlers of webapp/src/actions/index.js
-- and webapp/src/utils/outgoingDeclineListen.js behind the hub of webapp/src/utils/pluginSignalHub.js.
use mattermost_plugin_voices.Base.{
  ℕ, String, true, Option, some, ◌≡◌, ◌≢◌, ◌↔◌, is_set, ◌==◌, eq_iff, arith,
}
use mattermost_plugin_voices.Base.Js.{Value, str, obj, Fields, field, end, assign}
use mattermost_plugin_voices.Signal.{SignalSession, relayed}
use mattermost_plugin_voices.Signal.Laws.{relayed-obj, lookup-assign}
use mattermost_plugin_voices.Call.Listeners.{
  DeclineListener, CancelListener, is_decline, is_cancel, is_accept_of,
}
use mattermost_plugin_voices.Call.World.{World}
use mattermost_plugin_voices.Call.Ending.{outgoing_declined, cancel_message}
use mattermost_plugin_voices.Call.Answering.{accept_message, accept_payload}
use mattermost_plugin_voices.Call.Steps.{decline_arrived, step, accept_arrives, decline_arrives}

module _ (parse : String → Option Value) where
  is_decline-stamped :
      (l : DeclineListener) (sender_id : String) (fs : Fields)
      → is_set sender_id ≡ true
      → is_decline parse l (obj (assign "fromUserId" (str sender_id) fs))
        ≡ (sender_id == l.callee_id)
  unfolding is_decline
  is_decline-stamped l sender_id fs a = rw lookup-assign (rw a)

  -- An object that the authenticated sender `sender_id` broadcasts counts as a decline exactly when
  -- that sender is the callee, whatever the object says and whatever channel it is meant for.
  pub is_decline-relayed :
      (l : DeclineListener) (sender_id : String) (s : SignalSession) (fs : Fields)
      → is_set sender_id ≡ true
      → is_set s.session_id ≡ true
      → s.version ≡ 1
      → (v : Value) × (relayed sender_id s (obj fs) ≡ some v)
        × ((is_decline parse l v ≡ true) ↔ (sender_id ≡ l.callee_id))
  is_decline-relayed l sender_id s fs a b c = (
    obj (assign "fromUserId" (str sender_id) fs),
    relayed-obj sender_id s fs a b c,
    rw (is_decline-stamped l sender_id fs a) (eq_iff sender_id l.callee_id),
  )

  -- The accept that the callee broadcasts, as the caller's page gets it.
  abbrev arrived_accept : String → Value
  arrived_accept callee_id = obj (
      assign "fromUserId" (str callee_id)
        (field "type" (str "accept") (field "userId" (str callee_id) end)))

  accept_unseen :
      (caller_id callee_id call_id : String) (hub : ℕ) (w : World)
      → caller_id ≢ callee_id
      → accept_message caller_id call_id hub (arrived_accept callee_id) w ≡ w
  unfolding accept_message is_accept_of
  accept_unseen caller_id callee_id call_id hub w ne = ground (arith, eq_iff callee_id caller_id)

  accept_declines :
      (l : DeclineListener) (w : World)
      → is_set l.callee_id ≡ true
      → w.decline ≡ some l
      → l.live ≡ true
      → decline_arrived parse (arrived_accept l.callee_id) w ≡ outgoing_declined l.call_id w
  unfolding decline_arrived
  accept_declines l w a d live = ground (
    arith,
    is_decline-stamped l l.callee_id
        (field "type" (str "accept") (field "userId" (str l.callee_id) end)),
    eq_iff l.callee_id l.callee_id,
  )

  -- The accept of a call, as `acceptCall` broadcasts it on the callee's page and the hub delivers it
  -- on the caller's, is no accept there, and the live decline listener takes it for a decline: the
  -- call that was answered ends as declined.
  pub accept_taken_for_decline :
      (caller_id : String) (l : DeclineListener) (s : SignalSession) (w : World)
      → caller_id ≢ l.callee_id
      → is_set l.callee_id ≡ true
      → is_set s.session_id ≡ true
      → s.version ≡ 1
      → w.decline ≡ some l
      → l.live ≡ true
      → (v : Value) × (relayed l.callee_id s (accept_payload l.callee_id) ≡ some v)
        × (step parse (accept_arrives caller_id l.call_id l.hub v) w ≡ w)
        × (step parse (decline_arrives v) w ≡ outgoing_declined l.call_id w)
  unfolding step
  accept_taken_for_decline caller_id l s w ne a b c d live = (
    arrived_accept l.callee_id,
    relayed-obj l.callee_id s _ a b c,
    accept_unseen caller_id l.callee_id l.call_id l.hub w ne,
    accept_declines l w a d live,
  )

  -- A cancel reaches the callee's listener exactly from the caller and for the call that rings.
  pub is_cancel-relayed :
      (l : CancelListener) (sender_id call_id : String) (s : SignalSession)
      → is_set sender_id ≡ true
      → is_set l.call_id ≡ true
      → is_set s.session_id ≡ true
      → s.version ≡ 1
      → (v : Value) × (relayed sender_id s (cancel_message sender_id call_id) ≡ some v)
        × ((is_cancel parse l v ≡ true) ↔ ((sender_id ≡ l.caller_id) × (call_id ≡ l.call_id)))
  unfolding is_cancel
  is_cancel-relayed l sender_id call_id s a i b c = (
    obj (field "fromUserId" (str sender_id) (field "callId" (str call_id) end)),
    relayed-obj sender_id s _ a b c,
    ground (arith, eq_iff sender_id l.caller_id, eq_iff call_id l.call_id),
  )
