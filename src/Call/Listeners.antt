-- ===== src/Call/Listeners.antt =====
-- webapp/src/utils/outgoingDeclineListen.js and webapp/src/utils/incomingCancelListen.js: which
-- messages of the hub count as a decline by the callee, or as a cancel by the caller; and the test
-- of an accept in `listenAccept` of webapp/src/actions/index.js.
use mattermost_plugin_voices.Base.{
  ℕ, String, Bool, false, not, ◌&&◌, ◌||◌, Option, none, some, is_set, if◌then◌else◌,
}
use mattermost_plugin_voices.Base.Js.{Value, null, str, get, truthy, is_text, or_value}

-- The stream that the module keeps in `declineSubStream`, with what its handler captures. It is
-- live until its hub is closed; clearing the listener drops it.
pub record DeclineListener : Type 0 where
  pub hub : ℕ
  pub callee_id : String
  pub call_id : String
  pub live : Bool

-- the same for `cancelSubStream`
pub record CancelListener : Type 0 where
  pub hub : ℕ
  pub caller_id : String
  pub call_id : String
  pub live : Bool

-- `parse` is `JSON.parse`, which may throw.
module _ (parse : String → Option Value) where
  -- A payload that is a text is parsed first; `none` leaves the handler.
  abbrev pub payload_value : Value → Option Value
  payload_value (str s) = parse s
  payload_value v = some v

  -- the test of the decline handler, up to `onDecline()`
  unfoldable pub is_decline : DeclineListener → Value → Bool
  is_decline l payload = elim (payload_value payload) [
    | none ↦ false
    | some v ↦ truthy v && is_text (or_value (get "fromUserId" v) (get "calleeId" v)) l.callee_id
  ]

  -- the test of the cancel handler, up to `onCancel()`
  unfoldable pub is_cancel : CancelListener → Value → Bool
  is_cancel l payload = elim (payload_value payload) [
    | none ↦ false
    | some v ↦
        truthy v
        && is_text (or_value (get "fromUserId" v) (get "callerId" v)) l.caller_id
        && (not (is_set l.call_id) || is_text (get "callId" v) l.call_id)
  ]

-- `accepted && accepted.type === 'accept' ? accepted.userId : null`
abbrev pub accepted_user_id : Value → Value
accepted_user_id v = if truthy v && is_text (get "type" v) "accept" then get "userId" v else null

-- `acceptedUserId === userId`
unfoldable pub is_accept_of : String → Value → Bool
is_accept_of user_id accepted = is_text (accepted_user_id accepted) user_id
