-- ===== src/Signal.antt =====
-- webapp/src/utils/pluginSignalHub.js: the hub over a server-authorized signalling session, with the
-- stream of its messages. `JSON.parse` is outside: a frame comes as what it parses to, `none` when
-- the parse throws. The publish handler of server/signal_handlers.go is what a message passes.
pub mod Laws
mod Tests
use mattermost_plugin_voices.Base.{
  ℕ, String, Bool, true, false, not, ◌&&◌, ◌||◌, Option, none, some, List, [], ◌∷◌, ◌++◌, is_set,
  if◌then◌else◌,
}
use mattermost_plugin_voices.Base.Js.{
  Value, null, num, str, obj, Fields, field, end, get, assign, truthy, is_num, is_text, text_of,
}

pub data StreamEvent : Type 0 where
  opened_event : StreamEvent
  pushed : Value → StreamEvent

-- What `createSubscribeStream` keeps: `session_id` is empty for the inbox. `pushed null` ends a
-- readable stream, and `destroy` closes the event source.
pub record SignalStream : Type 0 where
  pub session_id : String
  pub opened : Bool
  pub ended : Bool
  pub destroyed : Bool
  pub out : List StreamEvent

unfoldable pub create_subscribe_stream : String → SignalStream
create_subscribe_stream session_id = record {
  session_id = session_id;
  opened = false;
  ended = false;
  destroyed = false;
  out = [];
}

unfoldable pub fire_open : SignalStream → SignalStream
fire_open s = if s.opened then s else record s { opened = true; out = s.out ++ (opened_event ∷ []) }

abbrev pub stamp : Value → Value → Value
stamp sender (obj fs) = obj (assign "fromUserId" sender fs)
stamp sender payload = payload

-- The message of a frame: `none` is the error that the code throws.
unfoldable pub read_frame : (session_id : String) → Value → Option Value
read_frame session_id data_ =
    if not (is_set session_id)
    then some data_
    else if not (is_num (get "version" data_) 1)
        || not (truthy (get "senderId" data_))
        || not (truthy (get "payload" data_))
    then none
    else some (stamp (get "senderId" data_) (get "payload" data_))

abbrev pub is_null : Value → Bool
is_null null = true
is_null _ = false

unfoldable pub push_message : Value → SignalStream → SignalStream
push_message v s =
    if is_null v
    then record s { ended = true }
    else if s.ended
    then s
    else record s { out = s.out ++ (pushed v ∷ []) }

unfoldable pub destroy : SignalStream → SignalStream
destroy s = record s { destroyed = true }

-- `es.onmessage`, on a frame that an open event source delivers
unfoldable pub on_message : Option Value → SignalStream → SignalStream
unfolding destroy fire_open push_message
on_message none s = destroy s
on_message (some frame) s = elim (read_frame s.session_id frame) [
  | none ↦ destroy s
  | some v ↦ push_message v (fire_open s)
]

-- `es.onopen`, which the source calls at each connection, and `setTimeout(fireOpen, 0)`
unfoldable pub on_open : SignalStream → SignalStream
unfolding fire_open
on_open s = fire_open s

unfoldable pub open_timer : SignalStream → SignalStream
unfolding fire_open
open_timer s = fire_open s

-- `es.onerror`
unfoldable pub on_error : SignalStream → SignalStream
unfolding fire_open
on_error s = fire_open s

pub record SignalSession : Type 0 where
  pub version : ℕ
  pub session_id : String
  pub call_id : String

-- `createAuthorizedSignalHub` on the answer's data: `none` is the error that it throws.
unfoldable pub authorize : (call_id : String) → Value → Option SignalSession
authorize call_id answer =
    if not (is_num (get "version" answer) 1)
      || not (truthy (get "sessionId" answer))
      || not (is_text (get "callId" answer) call_id)
    then none
    else some
        (record { version = 1; session_id = text_of (get "sessionId" answer); call_id = call_id })

-- the body of `broadcast`'s request: the channel is not part of it
unfoldable pub publish_body : SignalSession → Value → Value
publish_body s payload = obj (
    field "version" (num s.version) (
      field "sessionId" (str s.session_id) (
        field "callId" (str s.call_id)
          (field "type" (str "webrtc") (field "payload" payload end)))))

-- `handleSignalPublish`: the envelope that the session's subscribers get has the sender that the
-- server knows.
unfoldable pub publish : (sender_id : String) → Value → Value
publish sender_id body = obj (
    field "version" (get "version" body) (
      field "sessionId" (get "sessionId" body) (
        field "callId" (get "callId" body) (
          field "type" (get "type" body)
            (field "senderId" (str sender_id) (field "payload" (get "payload" body) end))))))

-- What a subscriber of a session gets of a message that `sender_id` broadcasts on any channel of it.
unfoldable pub relayed : (sender_id : String) → SignalSession → Value → Option Value
unfolding publish publish_body read_frame
relayed sender_id s payload = read_frame s.session_id (publish sender_id (publish_body s payload))
