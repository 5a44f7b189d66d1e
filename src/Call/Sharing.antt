-- ===== src/Call/Sharing.antt =====
-- Media and the connected peer: the `peer`, `data`, `track`, `stream` and `disconnect` handlers,
-- `getUserMedia`, `captureAndShareMedia`, `audioToggle` and `videoToggle` of
-- webapp/src/actions/index.js. The caller's and the callee's handlers are the same text.
use mattermost_plugin_voices.Base.{
  ℕ, String, Bool, true, false, not, ◌&&◌, ◌||◌, Option, none, some, List, [], ◌∷◌, ◌++◌, present,
  is_some, same, if◌then◌else◌, ◌==◌, eqb,
}
use mattermost_plugin_voices.Base.Js.{Value, bool, str, obj, field, end, get, truthy, is_text}
use mattermost_plugin_voices.Media.{Track, MediaStream, first_video, first_audio}
use mattermost_plugin_voices.Call.Effect.{
  add_stream, add_track, enable_track, peer_send, request_media,
}
use mattermost_plugin_voices.Call.Session.{mark_connected, connected, set_peer, set_stream}
use mattermost_plugin_voices.Call.Slice.{Action}
use mattermost_plugin_voices.Call.World.{World, emit, dispatch}
use mattermost_plugin_voices.Call.Ending.{end_call}

-- `{type: 'sendHandshake', userId}`
abbrev pub send_handshake : String → Value
send_handshake user_id = obj (field "type" (str "sendHandshake") (field "userId" (str user_id) end))

abbrev pub received_handshake : Value
received_handshake = obj (field "type" (str "receivedHandshake") end)

abbrev pub toggle_message : String → Bool → Value
toggle_message kind enabled = obj (field "type" (str kind) (field "enabled" (bool enabled) end))

-- what a rung of the ladder asks for, and what the peer is told that it gets
pub record Caps : Type 0 where
  pub video : Bool
  pub audio : Bool

abbrev pub caps : Bool → Bool → Caps
caps video audio = record { video = video; audio = audio }

abbrev pub media_ladder : List Caps
media_ladder = caps true true ∷ caps false true ∷ caps true false ∷ []

abbrev pub audio_only_ladder : List Caps
audio_only_ladder = caps false true ∷ []

-- the answer of `navigator.mediaDevices.getUserMedia`: the name of an error, or a stream
pub data MediaAnswer : Type 0 where
  rejected : String → MediaAnswer
  granted : MediaStream → MediaAnswer

-- what `getUserMedia` hands to its callback
pub data Capture : Type 0 where
  captured : MediaStream → Caps → Capture
  refused : (last_error : Option String) → Capture

-- `tryStep`: what it hands to the callback, one after the other. `answer` says how the browser answers
-- the constraints of a rung, and `throws` which error the callback throws on the stream of a rung: the
-- `catch` takes it for a refusal.
unfoldable pub try_steps :
    (answer : Caps → MediaAnswer) (throws : Caps → Option String)
    → List Caps
    → (last_error : Option String) → List Capture
try_steps answer throws [] last_error = refused last_error ∷ []
try_steps answer throws (rung ∷ rungs) last_error = elim (answer rung) [
  | granted m ↦
      captured m rung
      ∷ elim (throws rung) [ none ↦ [] | some e ↦ try_steps answer throws rungs (some e) ]
  | rejected e ↦ try_steps answer throws rungs (some e)
]

-- The requests that `tryStep` makes on the way.
unfoldable pub requests :
    (answer : Caps → MediaAnswer) (throws : Caps → Option String) → List Caps → List Caps
requests answer throws [] = []
requests answer throws (rung ∷ rungs) = elim (answer rung) [
  | granted m ↦ rung ∷ elim (throws rung) [ none ↦ [] | some e ↦ requests answer throws rungs ]
  | rejected e ↦ rung ∷ requests answer throws rungs
]

unfoldable pub ladder : World → List Caps
ladder w = if w.slice.call_audio_only then audio_only_ladder else media_ladder

-- `describeMediaError`, of the error's name
unfoldable pub describe_media_error : Option String → String
describe_media_error none = "Could not open the camera or microphone."
describe_media_error (some name) =
    if name == "NotAllowedError" || name == "SecurityError"
    then "Camera and microphone permission was denied."
    else if name == "NotFoundError" || name == "OverconstrainedError"
    then "No camera or microphone was found on this device."
    else if name == "NotReadableError" || name == "AbortError"
    then "The camera or microphone is already in use by another application."
    else "Could not open the camera or microphone."

-- The callback of `captureAndShareMedia`; `audio_only` is the flag that was read at its start.
unfoldable pub share_media : (peer : ℕ) (audio_only : Bool) → Capture → World → World
unfolding dispatch emit set_stream describe_media_error
share_media peer audio_only (refused e) w =
    dispatch (Action.media_error_found (describe_media_error e)) w
share_media peer audio_only (captured m c) w =
    let v = emit (add_stream peer m) (record w { session = set_stream (some m) w.session }) in
    let u =
      dispatch (Action.video_toggle c.video)
        (dispatch (Action.audio_toggle c.audio) (dispatch (Action.self_stream_set m) v)) in
    let t =
      (if not audio_only && not c.video
        then dispatch
            (Action.media_error_found
              "Your camera could not be opened — another application may be using it. The call continues with audio only.")
            u
        else u) in
    emit (peer_send peer (toggle_message "videoToggle" c.video))
      (emit (peer_send peer (toggle_message "audioToggle" c.audio)) t)

-- `data.enabled`, which is a Boolean in the messages that the code sends
abbrev pub enabled : Value → Bool
enabled message = truthy (get "enabled" message)

-- the handler of `peer`, up to the handshake that it sends
unfoldable pub peer_found : (call_id user_id : String) (peer : ℕ) → World → World
unfolding mark_connected dispatch emit
peer_found call_id user_id peer w =
    let (s, connected_now) = mark_connected (some call_id) w.session in
    if connected_now
    then emit (peer_send peer (send_handshake user_id))
        (dispatch (Action.call_session_transition connected) (record w { session = s }))
    else w

-- The handler of the peer's `data`, on a payload that JSON.parse reads. A `receivedHandshake` starts
-- `captureAndShareMedia`, whose callback is `share_media`.
unfoldable pub peer_data : (peer : ℕ) → Value → World → World
unfolding set_peer emit dispatch
peer_data peer message w =
    let v = record w { session = set_peer (some peer) w.session } in
    if is_text (get "type" message) "sendHandshake"
    then emit (peer_send peer received_handshake) v
    else if is_text (get "type" message) "audioToggle"
    then dispatch (Action.peer_audio_toggle (enabled message)) v
    else if is_text (get "type" message) "videoToggle"
    then dispatch (Action.peer_video_toggle (enabled message)) v
    else v

-- the handler of the peer's `stream`
unfoldable pub peer_stream : MediaStream → World → World
unfolding dispatch
peer_stream m w = dispatch (Action.peer_stream_received m) w

-- The handler of the peer's `track`: `rewrapped` is the new MediaStream of the same tracks.
unfoldable pub peer_track : Track → (rewrapped : MediaStream) → World → World
unfolding dispatch
peer_track t rewrapped w =
    if t.is_video && is_some w.slice.call_peer_stream
    then dispatch (Action.peer_stream_received rewrapped) w
    else w

-- the handler of the swarm's `disconnect`
unfoldable pub peer_disconnected : World → World
unfolding set_peer dispatch end_call
peer_disconnected w =
    end_call (dispatch Action.peer_lost (record w { session = set_peer none w.session }))

-- `if (t) t.enabled = …`
abbrev pub enable_first : Option Track → Bool → World → World
enable_first none enabled w = w
enable_first (some t) enabled w = emit (enable_track t enabled) w

abbrev pub tracks_of : Option MediaStream → List Track
tracks_of none = []
tracks_of (some m) = m.tracks

unfoldable pub audio_toggle : World → World
unfolding emit dispatch
audio_toggle w = elim w.session.peer [
  | none ↦ w
  | some peer ↦
      let on = not w.slice.audio_on in
      dispatch (Action.audio_toggle on) (
        emit (peer_send peer (toggle_message "audioToggle" on))
          (enable_first (first_audio (tracks_of w.session.stream)) on w))
]

-- `videoToggle`. Turning the camera on with no video track asks the browser for one; its answer is
-- `camera_answered`.
unfoldable pub video_toggle : World → World
unfolding emit dispatch
video_toggle w = elim w.session.peer [
  | none ↦ w
  | some peer ↦
      let on = not w.slice.video_on in
      let track = first_video (tracks_of w.session.stream) in
      if not (present w.slice.active_call_id)
      then w
      else if on && not (is_some track)
      then emit (request_media true false) w
      else dispatch (Action.video_toggle on)
          (emit (peer_send peer (toggle_message "videoToggle" on)) (enable_first track on w))
]

-- `new MediaStream(callSession.stream.getTracks())` for the preview
abbrev pub preview : ℕ → Option MediaStream → MediaStream
preview id m = record { id = id; tracks = tracks_of m }

abbrev pub same_peer : Option ℕ → ℕ → Bool
same_peer none peer = false
same_peer (some p) peer = eqb p peer

-- the track that was acquired, put on the live connection
abbrev pub add_camera :
    (peer : ℕ) → Track → (acquired : MediaStream) → Option MediaStream → World → World
add_camera peer t m none w =
    emit (add_stream peer m) (record w { session = set_stream (some m) w.session })
add_camera peer t m (some held) w = emit (add_track peer t) (record w {
  session = set_stream (some (record held { tracks = held.tracks ++ (t ∷ []) })) w.session;
})

-- The browser's answer to the request of `videoToggle`; `call_id` and `peer` are those at the time
-- of the request.
unfoldable pub camera_answered :
    (call_id : String) (peer preview_id : ℕ) → MediaAnswer → World → World
unfolding emit dispatch set_stream describe_media_error
camera_answered call_id peer preview_id (rejected e) w =
    dispatch (Action.media_error_found (describe_media_error (some e))) w
camera_answered call_id peer preview_id (granted m) w = elim (first_video m.tracks) [
  | none ↦ w
  | some t ↦
      let v = add_camera peer t m w.session.stream w in
      if not (same w.session.call_id (some call_id)) || not (same_peer w.session.peer peer)
      then w
      else dispatch (Action.video_toggle true) (
          emit (peer_send peer (toggle_message "videoToggle" true))
            (dispatch (Action.self_stream_set (preview preview_id v.session.stream)) v))
]
