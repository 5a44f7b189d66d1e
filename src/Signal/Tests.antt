-- ===== src/Signal/Tests.antt =====
-- Concrete messages of a signalling session.
use mattermost_plugin_voices.Base.{some, [], ◌∷◌, ◌≡◌, refl, eq_iff, arith}
use mattermost_plugin_voices.Base.Js.{Value, num, str, obj, Fields, field, end, get, lookup}
use mattermost_plugin_voices.Signal.{
  SignalSession, opened_event, pushed, create_subscribe_stream, relayed, read_frame,
}
use mattermost_plugin_voices.Signal.Laws.{
  message, connected, timer_fires, interrupted, source_run, nil, interruption, connection, timer,
  frame, ready, relayed_sender, source_run-Frames,
}

abbrev session : SignalSession
session = record { version = 1; session_id = "s1"; call_id = "c1" }

abbrev forged : Fields
forged = field "fromUserId" (str "u3") (field "type" (str "offer") end)

relayed_sender_example :
    (v : Value) × (relayed "u2" session (obj forged) ≡ some v)
    × (get "fromUserId" v ≡ str "u2")
    × (get "type" v ≡ lookup "type" forged)
relayed_sender_example =
    relayed_sender "u2" "type" session forged refl refl refl
      (λ e. ground (arith, eq_iff "fromUserId" "type"))

abbrev envelope : Value
envelope =
    obj (field "version" (num 1) (field "senderId" (str "u2") (field "payload" (str "hello") end)))

source_run-Frames_example :
    source_run
      (timer_fires ∷ connected ∷ message (some envelope) ∷ interrupted ∷ connected ∷ [])
      (create_subscribe_stream "s1")
    ≡ ready "s1" (opened_event ∷ pushed (str "hello") ∷ [])
unfolding read_frame
source_run-Frames_example =
    source_run-Frames "s1"
      (timer_fires ∷ connected ∷ message (some envelope) ∷ interrupted ∷ connected ∷ [])
      (pushed (str "hello") ∷ []) (λ e. cc)
      (timer (connection (frame envelope (str "hello") refl refl (interruption (connection nil)))))
