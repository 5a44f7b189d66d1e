-- ===== src/Watch.antt =====
-- The watch on a call that does not connect: webapp/src/utils/peerConnectionWatch.js. Given is
-- `toLowerCase`; a server has one address, as webapp/src/utils/iceServers.js makes them.
use mattermost_plugin_voices.Base.{
  String, Bool, true, false, not, ◌&&◌, List, [], ◌∷◌, any, ◌≡◌, refl, arith, if◌then◌else◌,
}
use mattermost_plugin_voices.Base.Text.{trim}
use mattermost_plugin_voices.Invite.Eligible.{starts_with}
use mattermost_plugin_voices.Ice.{IceServer}

-- `hasTurnServer`
unfoldable pub has_turn_server : (lower : String → String) → List IceServer → Bool
unfolding trim starts_with
has_turn_server lower servers =
    any (λ (s : IceServer). starts_with "turn" (lower (trim s.urls))) servers

-- What a watch keeps, and the diagnoses that it wrote: whether a TURN server is configured.
pub record Watch : Type 0 where
  pub connected : Bool
  pub timer_runs : Bool
  pub diagnoses : List Bool

-- `watchPeerConnection`
abbrev pub watch_peer_connection : Watch
watch_peer_connection = record { connected = false; timer_runs = true; diagnoses = [] }

-- A peer connects, the timeout fires, and the call ends.
pub data Event : Type 0 where
  connects fires cancels : Event

module _ (lower : String → String) (servers : List IceServer) where
  unfoldable pub step : Event → Watch → Watch
  unfolding has_turn_server
  step connects w = record w { connected = true }
  step cancels w = record w { timer_runs = false }
  step fires w =
      if not w.timer_runs
      then w
      else if w.connected
      then record w { timer_runs = false }
      else record w { timer_runs = false; diagnoses = has_turn_server lower servers ∷ w.diagnoses }

  unfoldable pub run : List Event → Watch → Watch
  unfolding step
  run [] w = w
  run (e ∷ es) w = run es (step e w)

  -- A watch whose peer has connected, or whose timer is over, writes nothing more.
  settled :
      (es : List Event) (w : Watch)
      → (w.timer_runs && not w.connected) ≡ false
      → (run es w).diagnoses ≡ w.diagnoses
  unfolding run step
  settled [] w h = refl
  settled (connects ∷ es) w h = settled es (step connects w) (ground arith)
  settled (cancels ∷ es) w h = settled es (step cancels w) (ground arith)
  settled (fires ∷ es) w h =
      ground (arith, settled es w h, settled es (record w { timer_runs = false }))

  -- what is written, by the first event alone
  unfoldable pub expected : List Event → List Bool
  expected (fires ∷ es) = has_turn_server lower servers ∷ []
  expected _ = []

  -- A watch writes one diagnosis, if its timeout is the first thing that happens, and else none; the
  -- diagnosis says whether a TURN server is among the servers.
  pub run-expected : (es : List Event) → (run es watch_peer_connection).diagnoses ≡ expected es
  unfolding run step expected
  run-expected [] = refl
  run-expected (connects ∷ es) = settled es (step connects watch_peer_connection) refl
  run-expected (cancels ∷ es) = settled es (step cancels watch_peer_connection) refl
  run-expected (fires ∷ es) = settled es (step fires watch_peer_connection) refl
