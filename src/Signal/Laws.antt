-- ===== src/Signal/Laws.antt =====
-- Laws of the messages of a signalling session: webapp/src/utils/pluginSignalHub.js.
use mattermost_plugin_voices.Base.{
  String, true, false, Option, some, List, [], ◌∷◌, ◌++◌, ◌≡◌, ◌≢◌, refl, ap, ◌∙◌, is_set,
  if◌then◌else◌, ◌==◌, eq_iff, arith,
}
use mathlib.Core.List.{append-nil, append_assoc}
use mattermost_plugin_voices.Base.Js.{Value, str, obj, Fields, field, end, get, lookup, assign}
use mattermost_plugin_voices.Signal.{
  SignalStream, StreamEvent, opened_event, pushed, SignalSession, relayed, on_message, on_error,
  on_open, open_timer, create_subscribe_stream, read_frame, is_null,
}

pub lookup-assign :
    (k j : String) (v : Value) (fs : Fields)
    → lookup j (assign k v fs) ≡ (if k == j then v else lookup j fs)
lookup-assign k j v end = refl
lookup-assign k j v (field i w fs) =
    ground (arith, eq_iff k j, eq_iff i k, eq_iff i j, lookup-assign k j v fs)

-- A message that is an object arrives as that object, with the sender's id put in.
pub relayed-obj :
    (sender_id : String) (s : SignalSession) (fs : Fields)
    → is_set sender_id ≡ true
    → is_set s.session_id ≡ true
    → s.version ≡ 1
    → relayed sender_id s (obj fs) ≡ some (obj (assign "fromUserId" (str sender_id) fs))
unfolding relayed
relayed-obj sender_id s fs a b c = ground arith

-- Whatever `fromUserId` a sender writes into an object that it broadcasts, a subscriber of the
-- session reads the id of the authenticated sender there, and every other property as it was sent.
pub relayed_sender :
    (sender_id k : String) (s : SignalSession) (fs : Fields)
    → is_set sender_id ≡ true
    → is_set s.session_id ≡ true
    → s.version ≡ 1
    → "fromUserId" ≢ k
    → (v : Value) × (relayed sender_id s (obj fs) ≡ some v)
      × (get "fromUserId" v ≡ str sender_id)
      × (get k v ≡ lookup k fs)
relayed_sender sender_id k s fs a b c ne = (
  obj (assign "fromUserId" (str sender_id) fs),
  relayed-obj sender_id s fs a b c,
  simp lookup-assign,
  rw lookup-assign (ground (arith, eq_iff "fromUserId" k)),
)

-- What an event source does: a connection, a frame, parsed, or an error after which it connects
-- again; and the timer that opens the stream.
pub data SourceEvent : Type 0 where
  message : Option Value → SourceEvent
  connected timer_fires interrupted : SourceEvent

unfoldable pub source_event : SourceEvent → SignalStream → SignalStream
unfolding on_message on_error on_open open_timer
source_event (message m) s = on_message m s
source_event connected s = on_open s
source_event timer_fires s = open_timer s
source_event interrupted s = on_error s

unfoldable pub source_run : List SourceEvent → SignalStream → SignalStream
unfolding source_event
source_run [] s = s
source_run (e ∷ es) s = source_run es (source_event e s)

-- The messages of a run of events whose frames are all envelopes of the session.
pub data Frames (session_id : String) : List SourceEvent → List StreamEvent → Type 0 where
  nil : Frames session_id [] []
  interruption :
      {es : List SourceEvent} {out : List StreamEvent}
      → Frames session_id es out
      → Frames session_id (interrupted ∷ es) out
  connection :
      {es : List SourceEvent} {out : List StreamEvent}
      → Frames session_id es out
      → Frames session_id (connected ∷ es) out
  timer :
      {es : List SourceEvent} {out : List StreamEvent}
      → Frames session_id es out
      → Frames session_id (timer_fires ∷ es) out
  frame :
      {es : List SourceEvent} {out : List StreamEvent} (f v : Value)
      → read_frame session_id f ≡ some v
      → is_null v ≡ false
      → Frames session_id es out
      → Frames session_id (message (some f) ∷ es) (pushed v ∷ out)

abbrev pub ready : String → List StreamEvent → SignalStream
ready session_id out = record {
  session_id = session_id;
  opened = true;
  ended = false;
  destroyed = false;
  out = out;
}

on_message-ready :
    (session_id : String) (before : List StreamEvent) (f v : Value)
    → read_frame session_id f ≡ some v
    → is_null v ≡ false
    → on_message (some f) (ready session_id before) ≡ ready session_id (before ++ (pushed v ∷ []))
unfolding on_message
on_message-ready session_id before f v e n = ground arith

source_run-ready :
    (session_id : String) (out before : List StreamEvent) (es : List SourceEvent)
    → Frames session_id es out
    → source_run es (ready session_id before) ≡ ready session_id (before ++ out)
unfolding source_run
source_run-ready session_id out before es nil = rw append-nil
source_run-ready session_id out before es (interruption {es = es'} fs) =
    source_run-ready session_id out before es' fs
source_run-ready session_id out before es (connection {es = es'} fs) =
    source_run-ready session_id out before es' fs
source_run-ready session_id out before es (timer {es = es'} fs) =
    source_run-ready session_id out before es' fs
source_run-ready session_id out before es (frame {es = es'} {out = out'} f v e n fs) =
    rw (on_message-ready session_id before f v e n) (
      source_run-ready session_id out' (before ++ (pushed v ∷ [])) es' fs
      ∙ ap (ready session_id) (append_assoc before (pushed v ∷ []) out'))

on_message-first :
    (session_id : String) (f v : Value)
    → read_frame session_id f ≡ some v
    → is_null v ≡ false
    → on_message (some f) (create_subscribe_stream session_id)
      ≡ ready session_id (opened_event ∷ pushed v ∷ [])
unfolding on_message create_subscribe_stream
on_message-first session_id f v e n = ground arith

-- However often the event source connects and is interrupted, and whenever the timer fires, the
-- stream of a session stays open: after the first event it has emitted `open` once, before everything
-- else, and then the message of each frame, in the order of the frames, where every frame is one that
-- gives a message other than null.
pub source_run-Frames :
    (session_id : String) (es : List SourceEvent) (out : List StreamEvent)
    → es ≢ []
    → Frames session_id es out
    → source_run es (create_subscribe_stream session_id) ≡ ready session_id (opened_event ∷ out)
unfolding source_run create_subscribe_stream
source_run-Frames session_id es out ne nil = absurd (ne refl)
source_run-Frames session_id es out ne (interruption {es = es'} fs) =
    source_run-ready session_id out (opened_event ∷ []) es' fs
source_run-Frames session_id es out ne (connection {es = es'} fs) =
    source_run-ready session_id out (opened_event ∷ []) es' fs
source_run-Frames session_id es out ne (timer {es = es'} fs) =
    source_run-ready session_id out (opened_event ∷ []) es' fs
source_run-Frames session_id es out ne (frame {es = es'} {out = out'} f v e n fs) =
    rw (on_message-first session_id f v e n)
      (source_run-ready session_id out' (opened_event ∷ pushed v ∷ []) es' fs)
