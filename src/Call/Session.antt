-- ===== src/Call/Session.antt =====
-- webapp/src/utils/callSession.js: the resources and the state of the current 1:1 call.
use mattermost_plugin_voices.Base.{
  ℕ, String, Bool, true, false, not, ◌||◌, Option, none, some, List, [], ◌∷◌, ◌++◌, map,
  if◌then◌else◌, is_set, same,
}
use mattermost_plugin_voices.Media.{Track, MediaStream}
use mattermost_plugin_voices.Call.Effect.{Effect, stop_track, cancel_watch, close_swarm, close_hub}

pub data SessionState : Type 0 where
  idle ringing connecting connected ending failed : SessionState

-- Hubs, swarms, watches and peers are named by the number that they got when they were made.
pub record CallSession : Type 0 where
  pub state : SessionState
  pub call_id : Option String
  pub peer_id : Option String
  pub hubs : List ℕ
  pub swarms : List ℕ
  pub watches : List ℕ
  pub stream : Option MediaStream
  pub peer : Option ℕ

abbrev pub new_session : CallSession
new_session = record {
  state = idle;
  call_id = none;
  peer_id = none;
  hubs = [];
  swarms = [];
  watches = [];
  stream = none;
  peer = none;
}

abbrev pub is_idle : SessionState → Bool
is_idle idle = true
is_idle _ = false

-- `state === IDLE || state === ENDING`
abbrev pub is_over : SessionState → Bool
is_over idle = true
is_over ending = true
is_over _ = false

abbrev pub is_connecting : SessionState → Bool
is_connecting connecting = true
is_connecting _ = false

unfoldable pub start : String → String → CallSession → CallSession × Bool
start call_id peer_id s =
    if not (is_set call_id) || not (is_set peer_id) || not (is_idle s.state)
    then (s, false)
    else (record s { call_id = some call_id; peer_id = some peer_id; state = ringing }, true)

unfoldable pub transition : Option String → SessionState → CallSession → CallSession × Bool
transition call_id to s =
    if not (same call_id s.call_id) || is_over s.state
    then (s, false)
    else (record s { state = to }, true)

unfoldable pub begin_connecting : Option String → CallSession → CallSession × Bool
unfolding transition
begin_connecting call_id s = transition call_id connecting s

unfoldable pub mark_connected : Option String → CallSession → CallSession × Bool
unfolding transition
mark_connected call_id s =
    if is_connecting s.state then transition call_id connected s else (s, false)

unfoldable pub fail : Option String → CallSession → CallSession × Bool
unfolding transition
fail call_id s = transition call_id failed s

unfoldable pub track_hub : ℕ → CallSession → CallSession
track_hub hub s = record s { hubs = s.hubs ++ (hub ∷ []) }

unfoldable pub track_swarm : (swarm watch : ℕ) → CallSession → CallSession
track_swarm swarm watch s = record s {
  swarms = s.swarms ++ (swarm ∷ []);
  watches = s.watches ++ (watch ∷ []);
}

unfoldable pub set_stream : Option MediaStream → CallSession → CallSession
set_stream stream s = record s { stream = stream }

unfoldable pub set_peer : Option ℕ → CallSession → CallSession
set_peer peer s = record s { peer = peer }

-- `stream.getTracks().forEach((track) => track.stop())`: a track that throws ends the loop.
abbrev pub stop_tracks : List Track → List Effect
stop_tracks [] = []
stop_tracks (t ∷ ts) = stop_track t ∷ (if t.stop_throws then [] else stop_tracks ts)

abbrev pub stop_stream : Option MediaStream → List Effect
stop_stream none = []
stop_stream (some m) = stop_tracks m.tracks

-- Each resource is closed in a `try` of its own, so what one of them throws stops none of the others.
unfoldable pub release_resources : CallSession → CallSession × List Effect
release_resources s = (
  record s { stream = none; peer = none; watches = []; swarms = []; hubs = [] },
  stop_stream s.stream
      ++ (map cancel_watch s.watches ++ (map close_swarm s.swarms ++ map close_hub s.hubs)),
)

-- `end`; the third part is its result
unfoldable pub end_session : Option String → CallSession → CallSession × List Effect × Bool
unfolding release_resources
end_session call_id s =
    if not (same call_id s.call_id) || is_over s.state
    then (s, [], false)
    else let (r, effects) = release_resources (record s { state = ending }) in
      (record r { state = idle; call_id = none; peer_id = none }, effects, true)
