-- ===== src/Call/Placing.antt =====
-- Placing a call: `makeVideoCall` of webapp/src/actions/index.js, cut at its awaits, with
-- `deliverAuthorizedCallInvite` of webapp/src/utils/authorizedCallInvite.js.
use mattermost_plugin_voices.Base.{
  ℕ, String, Bool, true, false, not, ◌&&◌, Option, none, some, is_set, same, if◌then◌else◌, ◌==◌,
  [], ◌∷◌,
}
use mattermost_plugin_voices.Call.Effect.{
  start_outgoing_ringback, stop_outgoing_ringback, subscribe, close_hub, send_invite, invite_post,
}
use mattermost_plugin_voices.Call.Session.{start, fail, failed}
use mattermost_plugin_voices.Call.Slice.{Action}
use mattermost_plugin_voices.Call.World.{
  World, emit, dispatch, user_id, release_call_resources, open_hub, attach_decline, seal_decline,
  seal_cancel,
}

-- `callSession.start(callId, peerId)` and what follows it up to the async part. The id of the call,
-- `newCallId()`, is given.
unfoldable pub start_outgoing : (call_id peer_id : String) (audio_only : Bool) → World → World
unfolding start dispatch emit
start_outgoing call_id peer_id audio_only w =
    let (s, started) = start call_id peer_id w.session in
    if started
    then emit start_outgoing_ringback
        (dispatch (Action.make_video_call peer_id call_id audio_only) (record w { session = s }))
    else w

unfoldable pub make_video_call : (call_id peer_id : String) (audio_only : Bool) → World → World
unfolding start_outgoing
make_video_call call_id peer_id audio_only w =
    if not w.slice.config_loaded
    then w
    else if not (is_set peer_id)
    then w
    else if not (is_set (user_id w.user))
    then w
    else if peer_id == user_id w.user
    then w
    else if w.slice.call_incoming
    then w
    else if w.slice.call_outgoing
    then w
    else start_outgoing call_id peer_id audio_only w

-- The first `try` of the async part: the channel is one that the store knows, or one that the server
-- makes; whatever fails here is only reported.
unfoldable pub post_invite :
    (known ensured : Option String) (peer_id call_id : String) → World → World
unfolding emit
post_invite (some channel) ensured peer_id call_id w = emit (invite_post channel peer_id call_id) w
post_invite none (some channel) peer_id call_id w = emit (invite_post channel peer_id call_id) w
post_invite none none peer_id call_id w = w

-- `current.callOutgoing && current.activeCallId === callId`
abbrev pub is_current : String → World → Bool
is_current call_id w = w.slice.call_outgoing && same w.slice.active_call_id (some call_id)

-- the `catch` of the async part
unfoldable pub signalling_failed : String → World → World
unfolding emit fail dispatch release_call_resources
signalling_failed call_id w =
    if is_current call_id w
    then (let v = emit stop_outgoing_ringback w in
        let u = record v { session = (fail (some call_id) v.session).0 } in
        dispatch Action.end_call (
          release_call_resources (some call_id)
            (dispatch (Action.call_session_transition failed) u)))
    else w

-- `hub.close()` in `deliverAuthorizedCallInvite`
unfoldable pub close_one : ℕ → World → World
unfolding emit
close_one hub w = emit (close_hub hub) (record w {
  decline = seal_decline (hub ∷ []) w.decline;
  cancel = seal_cancel (hub ∷ []) w.cancel;
})

-- `listenAccept` up to its two subscriptions: a guard that fails leaves them out. The user is the
-- one that the store has for `userId`.
unfoldable pub listen_accept : (user_id : String) (hub : ℕ) → World → World
unfolding emit
listen_accept user_id hub w = elim (w.profiles user_id) [
  | none ↦ w
  | some u ↦ if w.slice.config_loaded then emit (subscribe hub) (emit (subscribe hub) w) else w
]

-- `onHub`, on a call that is still current, and the invite that is sent after it
unfoldable pub hub_ready :
    (call_id peer_id session_id : String) (audio_only : Bool) (hub : ℕ) → World → World
unfolding dispatch listen_accept attach_decline emit
hub_ready call_id peer_id session_id audio_only hub w = emit (send_invite hub peer_id audio_only) (
    attach_decline hub peer_id call_id
      (listen_accept (user_id w.user) hub (dispatch (Action.signal_session_ready session_id) w)))

-- The server has answered the request for a signalling session, or refused it.
unfoldable pub session_created :
    (call_id peer_id : String) (audio_only : Bool) (answer : Option String) → World → World
unfolding signalling_failed open_hub close_one hub_ready
session_created call_id peer_id audio_only none w = signalling_failed call_id w
session_created call_id peer_id audio_only (some session_id) w =
    let v = open_hub w in
    if is_current call_id v
    then hub_ready call_id peer_id session_id audio_only w.next v
    else signalling_failed call_id (close_one w.next v)

-- The server has delivered the invite, or refused it.
unfoldable pub invite_answered : (call_id : String) (hub : ℕ) (delivered : Bool) → World → World
unfolding close_one signalling_failed
invite_answered call_id hub true w = w
invite_answered call_id hub false w = signalling_failed call_id (close_one hub w)
