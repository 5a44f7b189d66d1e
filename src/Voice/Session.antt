-- ===== src/Voice/Session.antt =====
-- webapp/src/utils/voiceSession.js: the session of one voice room, with its media, its hub and swarm,
-- and its close, which waits for the swarm or for a timeout. Stopping a track does not throw. A
-- callback of `close` and a timer are named by numbers.
use mattermost_plugin_voices.Base.{
  ℕ, suc, String, Bool, true, false, not, ◌&&◌, ◌||◌, Option, none, some, List, [], ◌∷◌, ◌++◌, map,
  push, is_set, same, is_some, eqb, if◌then◌else◌,
}
use mattermost_plugin_voices.Media.{MediaStream}
use mattermost_plugin_voices.Voice.Effect.{
  Effect, PeerRecord, new_record, stop_track, close_hub, close_swarm, clear_timer, set_timer,
  emit_peers, pause_audio, run_callback, subscribe_hub, open_swarm, announce,
}

pub data SessionState : Type 0 where
  idle active closing : SessionState

-- What the closure `finish` of a `close` that has not completed captures.
pub record Pending : Type 0 where
  pub number : ℕ
  pub hub : Option ℕ
  pub timeout : Option ℕ

-- `peers` and `playbacks` hold the numbers of the peer records and of the audio elements; a record is
-- an object that the handlers of its peer go on to change, so it is kept by its number.
pub record VoiceSession : Type 0 where
  pub state : SessionState
  pub room_id : Option String
  pub stream : Option MediaStream
  pub hub : Option ℕ
  pub swarm : Option ℕ
  pub peer_timers : List ℕ
  pub peers : List (String × ℕ)
  pub records : ℕ → PeerRecord
  pub playbacks : List (String × ℕ)
  pub cleanup_callbacks : List ℕ
  pub pending : Option Pending
  pub next : ℕ
  pub log : List Effect

abbrev pub new_session : VoiceSession
new_session = record {
  state = idle;
  room_id = none;
  stream = none;
  hub = none;
  swarm = none;
  peer_timers = [];
  peers = [];
  records = λ n. new_record;
  playbacks = [];
  cleanup_callbacks = [];
  pending = none;
  next = 0;
  log = [];
}

abbrev pub is_idle : SessionState → Bool
is_idle idle = true
is_idle _ = false

abbrev pub is_active_state : SessionState → Bool
is_active_state active = true
is_active_state _ = false

abbrev pub is_closing : SessionState → Bool
is_closing closing = true
is_closing _ = false

unfoldable pub emit : List Effect → VoiceSession → VoiceSession
emit es s = record s { log = push es s.log }

unfoldable pub start : String → VoiceSession → VoiceSession × Bool
start room_id s =
    if not (is_set room_id) || not (is_idle s.state)
    then (s, false)
    else (record s { room_id = some room_id; state = active }, true)

unfoldable pub is_active : String → VoiceSession → Bool
is_active room_id s = is_active_state s.state && same s.room_id (some room_id)

-- `stopStream`
abbrev pub stop_stream : Option MediaStream → List Effect
stop_stream none = []
stop_stream (some m) = map stop_track m.tracks

-- `closeHub`: what a hub throws is only reported.
abbrev pub close_hub_of : Option ℕ → List Effect
close_hub_of none = []
close_hub_of (some hub) = close_hub hub ∷ []

unfoldable pub set_stream : String → MediaStream → VoiceSession → VoiceSession × Bool
unfolding is_active emit
set_stream room_id m s =
    if is_active room_id s
    then (record s { stream = some m }, true)
    else (emit (stop_stream (some m)) s, false)

pub record Acquired : Type 0 where
  pub active : Bool
  pub audio_enabled : Bool
  pub video_enabled : Bool

-- `acquireAudio` once the browser has answered: a stream, or `none` for a refusal
unfoldable pub acquired : String → Option MediaStream → VoiceSession → VoiceSession × Acquired
unfolding is_active set_stream
acquired room_id none s =
    (s, record { active = is_active room_id s; audio_enabled = false; video_enabled = false })
acquired room_id (some m) s =
    let (t, kept) = set_stream room_id m s in
    (t, record { active = kept; audio_enabled = kept; video_enabled = false })

-- `closeConnection`
unfoldable pub close_connection : (hub swarm : ℕ) → VoiceSession → VoiceSession
unfolding emit
close_connection hub swarm s = emit (close_hub hub ∷ close_swarm swarm ∷ []) s

unfoldable pub set_connection : String → (hub swarm : ℕ) → VoiceSession → VoiceSession × Bool
unfolding is_active close_connection
set_connection room_id hub swarm s =
    if is_active room_id s
    then (record s { hub = some hub; swarm = some swarm }, true)
    else (close_connection hub swarm s, false)

-- the guard of `connect`; the session has both of its factories
unfoldable pub may_connect : String → VoiceSession → Bool
unfolding is_active
may_connect room_id s = is_active room_id s && not (is_some s.swarm)

-- `connect` once `createHub` has answered: `hub` is none if it failed, `is_current` is what the
-- caller's test says then, and `swarm` is none if making the swarm throws.
unfoldable pub hub_created :
    String
    → (hub : Option ℕ) → (is_current : Bool) → (swarm : Option ℕ) → VoiceSession
    → VoiceSession × Bool
unfolding is_active emit set_connection
hub_created room_id none is_current swarm s = (s, false)
hub_created room_id (some hub) is_current swarm s =
    if not (is_active room_id s) || not is_current
    then (emit (close_hub hub ∷ []) s, false)
    else elim swarm [
      | none ↦ (emit (subscribe_hub hub ∷ close_hub hub ∷ []) s, false)
      | some sw ↦
          let (t, kept) =
            set_connection room_id hub sw (emit (subscribe_hub hub ∷ open_swarm sw ∷ []) s) in
          if kept then (emit (announce hub ∷ []) t, true) else (t, false)
    ]

-- how `swarm.close(finish)` goes
pub data SwarmClose : Type 0 where
  at_once : SwarmClose
  later : SwarmClose
  throws : SwarmClose

abbrev pub clear_timeout : Option ℕ → List Effect
clear_timeout none = []
clear_timeout (some t) = clear_timer t ∷ []

-- `finish` of the close with this number; one that has completed does nothing.
unfoldable pub finish : ℕ → VoiceSession → VoiceSession
unfolding emit
finish number s = elim s.pending [
  | none ↦ s
  | some p ↦
      if eqb p.number number
      then emit
          (clear_timeout p.timeout ++ (close_hub_of p.hub ++ map run_callback s.cleanup_callbacks))
          (record s { state = idle; cleanup_callbacks = []; pending = none })
      else s
]

-- `close` up to the swarm: everything that the session owns is let go at once.
unfoldable pub let_go : (done : ℕ) → VoiceSession → VoiceSession
unfolding emit
let_go done s =
    emit
      (map clear_timer s.peer_timers
        ++ (map (λ (p : String × ℕ). pause_audio p.1) s.playbacks
            ++ (emit_peers [] ∷ stop_stream s.stream)))
      (record s {
        state = closing;
        cleanup_callbacks = done ∷ [];
        peer_timers = [];
        playbacks = [];
        peers = [];
        stream = none;
        hub = none;
        swarm = none;
        room_id = none;
        pending = some (record { number = s.next; hub = s.hub; timeout = none });
        next = suc s.next;
      })

abbrev pub hub_of : Option Pending → Option ℕ
hub_of none = none
hub_of (some p) = p.hub

-- The swarm is asked to close under a timeout, which is armed first.
unfoldable pub close_swarm_under_timeout :
    (swarm number : ℕ) → SwarmClose → VoiceSession → VoiceSession
unfolding emit finish
close_swarm_under_timeout swarm number how s =
    let armed = emit (set_timer s.next ∷ close_swarm swarm ∷ []) (record s {
      pending = some (record { number = number; hub = hub_of s.pending; timeout = some s.next });
      next = suc s.next;
    }) in
    elim how [ at_once ↦ finish number armed | later ↦ armed | throws ↦ finish number armed ]

unfoldable pub close : (done : ℕ) → SwarmClose → VoiceSession → VoiceSession
unfolding let_go finish close_swarm_under_timeout
close done how s =
    if is_closing s.state
    then record s { cleanup_callbacks = s.cleanup_callbacks ++ (done ∷ []) }
    else elim s.swarm [
      | none ↦ finish s.next (let_go done s)
      | some swarm ↦ close_swarm_under_timeout swarm s.next how (let_go done s)
    ]
