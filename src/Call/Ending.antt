-- ===== src/Call/Ending.antt =====
-- The ways in which a call ends: `endCall`, `rejectCall` and the handler of a decline, of
-- webapp/src/actions/index.js.
use mattermost_plugin_voices.Base.{
  String, Bool, not, ◌&&◌, Option, none, some, is_set, present, if◌then◌else◌,
}
use mattermost_plugin_voices.Base.Js.{Value, str, obj, field, end}
use mattermost_plugin_voices.Call.Effect.{
  declined_notice, broadcast, stop_incoming_ring, stop_outgoing_ringback,
}
use mattermost_plugin_voices.Call.Slice.{Action}
use mattermost_plugin_voices.Call.World.{
  World, emit, dispatch, user_id, release_call_resources, open_hub, clear_decline, clear_cancel,
}

abbrev pub or_empty : Option String → String
or_empty none = ""
or_empty (some s) = s

-- `{fromUserId: user.id, callId: state.activeCallId}`
abbrev pub cancel_message : (from_user_id call_id : String) → Value
cancel_message from_user_id call_id =
    obj (field "fromUserId" (str from_user_id) (field "callId" (str call_id) end))

-- `{fromUserId: user.id}`
abbrev pub decline_message : (from_user_id : String) → Value
decline_message from_user_id = obj (field "fromUserId" (str from_user_id) end)

-- A call that rings is cancelled over a hub of its own.
unfoldable pub announce_cancel : World → World
unfolding open_hub emit
announce_cancel w =
    if w.slice.call_outgoing
      && not w.slice.peer_accepted
      && is_set w.slice.call_peer_id
      && is_set (user_id w.user)
      && present w.slice.active_signal_session_id
      && present w.slice.active_call_id
    then emit (broadcast w.next (cancel_message (user_id w.user) (or_empty w.slice.active_call_id)))
        (open_hub w)
    else w

unfoldable pub end_call : World → World
unfolding announce_cancel emit clear_decline clear_cancel release_call_resources dispatch
end_call w =
    let call_id = w.slice.active_call_id in
    dispatch Action.end_call (
      release_call_resources call_id (
        clear_cancel (
          clear_decline
            (emit stop_outgoing_ringback (emit stop_incoming_ring (announce_cancel w))))))

-- `state.callIncoming && state.callPeerId && user && user.id`
abbrev pub may_decline : World → Bool
may_decline w = w.slice.call_incoming && is_set w.slice.call_peer_id && is_set (user_id w.user)

-- The callee declines over a hub of its own.
unfoldable pub announce_decline : World → World
unfolding open_hub emit
announce_decline w =
    if may_decline w && present w.slice.active_signal_session_id && present w.slice.active_call_id
    then emit (broadcast w.next (decline_message (user_id w.user))) (open_hub w)
    else w

unfoldable pub reject_call : World → World
unfolding announce_decline emit clear_decline clear_cancel release_call_resources dispatch
reject_call w =
    let call_id = w.slice.active_call_id in
    dispatch Action.reject_call (
      release_call_resources call_id
        (clear_decline (announce_decline (clear_cancel (emit stop_incoming_ring w)))))

-- The post that tells of a declined call: the channel is one that the store knows, or one that the
-- server makes; a server that fails leaves it out.
unfoldable pub post_declined : (known ensured : Option String) (caller_id : String) → World → World
unfolding emit
post_declined (some channel) ensured caller_id w = emit (declined_notice channel caller_id) w
post_declined none (some channel) caller_id w = emit (declined_notice channel caller_id) w
post_declined none none caller_id w = w

-- `onDecline` as `makeVideoCall` passes it
unfoldable pub outgoing_declined : (call_id : String) → World → World
unfolding clear_decline emit release_call_resources dispatch
outgoing_declined call_id w =
    dispatch Action.outgoing_declined
      (release_call_resources (some call_id) (emit stop_outgoing_ringback (clear_decline w)))
