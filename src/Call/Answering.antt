-- ===== src/Call/Answering.antt =====
-- Receiving and answering a call: `parseAuthorizedCallInvite`, `receiveVideoCall`,
-- `listenVideoCall`, the handler of `listenAccept` and `acceptCall`, of webapp/src/actions/index.js.
use mattermost_plugin_voices.Base.{
  ℕ, suc, String, Bool, not, ◌&&◌, ◌||◌, Option, none, some, is_set, present, is_some,
  if◌then◌else◌, ◌==◌,
}
use mattermost_plugin_voices.Base.Js.{
  Value, obj, str, field, end, get, truthy, is_text, is_num, is_object, text_of,
}
use mattermost_plugin_voices.Users.{caller_display_name}
use mattermost_plugin_voices.Call.Effect.{
  start_incoming_ring, stop_incoming_ring, stop_outgoing_ringback, notify_incoming, subscribe,
  broadcast, open_swarm, open_inbox,
}
use mattermost_plugin_voices.Call.Session.{start, begin_connecting, track_swarm, connecting}
use mattermost_plugin_voices.Call.Slice.{Action}
use mattermost_plugin_voices.Call.Listeners.{is_accept_of}
use mattermost_plugin_voices.Call.World.{
  World, emit, dispatch, user_id, open_hub, attach_cancel, clear_cancel, clear_decline,
}

pub record Invite : Type 0 where
  pub caller_id : String
  pub call_id : String
  pub audio_only : Bool
  pub signal_session_id : String

-- `raw.payload || {}`, and its `audioOnly`
abbrev pub payload_audio_only : Value → Bool
payload_audio_only payload = truthy (get "audioOnly" payload)

unfoldable pub parse_authorized_call_invite : Value → Option Invite
parse_authorized_call_invite raw =
    if is_object raw
      && is_num (get "version" raw) 1
      && is_text (get "type" raw) "invite"
      && truthy (get "senderId" raw)
      && truthy (get "sessionId" raw)
      && truthy (get "callId" raw)
    then some (record {
      caller_id = text_of (get "senderId" raw);
      call_id = text_of (get "callId" raw);
      audio_only = payload_audio_only (get "payload" raw);
      signal_session_id = text_of (get "sessionId" raw);
    })
    else none

-- what follows a `callSession.start` that succeeds
unfoldable pub ring_incoming : Invite → World → World
unfolding dispatch open_hub attach_cancel emit caller_display_name
ring_incoming i w =
    let v = open_hub (
      dispatch (Action.receive_video_call i.caller_id i.call_id i.audio_only i.signal_session_id)
        w) in
    emit (notify_incoming (caller_display_name (w.profiles i.caller_id)))
      (emit start_incoming_ring (attach_cancel w.next i.caller_id i.call_id v))

unfoldable pub receive_video_call : Invite → World → World
unfolding start ring_incoming
receive_video_call i w =
    if not (is_set i.caller_id)
    then w
    else if not (is_set (user_id w.user))
    then w
    else if i.caller_id == user_id w.user
    then w
    else if w.slice.call_incoming
    then w
    else if w.slice.call_outgoing
    then w
    else if not (is_set i.signal_session_id) || not (is_set i.call_id)
    then w
    else let (s, started) = start i.call_id i.caller_id w.session in
      if started then ring_incoming i (record w { session = s }) else w

-- `inbox.on('data', …)`
unfoldable pub inbox_message : Value → World → World
unfolding parse_authorized_call_invite receive_video_call
inbox_message raw w = elim (parse_authorized_call_invite raw) [
  | none ↦ w
  | some i ↦ receive_video_call i w
]

unfoldable pub listen_video_call : World → World
unfolding emit dispatch
listen_video_call w =
    if w.slice.config_loaded && not w.slice.call_listening && is_some w.user
    then dispatch Action.listen_video_call (emit open_inbox w)
    else w

-- `trackSwarm(swarm(callhub, …), …)`: the swarm and its watch get the next two numbers.
unfoldable pub open_tracked_swarm : (hub : ℕ) → World → World
unfolding track_swarm emit
open_tracked_swarm hub w =
    emit (open_swarm w.next hub)
      (record w { session = track_swarm w.next (suc w.next) w.session; next = suc (suc w.next) })

-- The handler of the caller's subscription `accept-<callee>`: `user_id` is the caller's own id.
unfoldable pub accept_message : (caller_id call_id : String) (hub : ℕ) → Value → World → World
unfolding is_accept_of begin_connecting dispatch open_tracked_swarm emit clear_decline
accept_message caller_id call_id hub accepted w =
    if not (is_accept_of caller_id accepted)
    then w
    else if w.slice.peer_accepted
    then w
    else let (s, begun) = begin_connecting (some call_id) w.session in
      if begun
      then clear_decline (
          dispatch Action.peer_accept (
            emit stop_outgoing_ringback (
              open_tracked_swarm hub
                (dispatch (Action.call_session_transition connecting) (record w { session = s })))))
      else w

-- `{type: 'accept', userId: user.id}`
abbrev pub accept_payload : String → Value
accept_payload user_id = obj (field "type" (str "accept") (field "userId" (str user_id) end))

-- `acceptCall` behind its guards
unfoldable pub connect_callee : World → World
unfolding dispatch open_hub emit open_tracked_swarm
connect_callee w =
    let v = open_hub (dispatch (Action.call_session_transition connecting) w) in
    dispatch Action.accept_call (
      open_tracked_swarm w.next
        (emit (broadcast w.next (accept_payload (user_id w.user))) (emit (subscribe w.next) v)))

-- `acceptCall` once the ring is stopped
unfoldable pub answer : World → World
unfolding begin_connecting dispatch connect_callee
answer w =
    if not (is_set (user_id w.user))
    then w
    else if not (present w.slice.active_signal_session_id) || not (present w.slice.active_call_id)
    then dispatch Action.end_call w
    else let (s, begun) = begin_connecting w.slice.active_call_id w.session in
      if begun then connect_callee (record w { session = s }) else dispatch Action.end_call w

unfoldable pub accept_call : World → World
unfolding emit clear_cancel answer
accept_call w = answer (clear_cancel (emit stop_incoming_ring w))
