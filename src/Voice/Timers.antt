-- ===== src/Voice/Timers.antt =====
-- The peers that a voice session waits for: `registerHubPeer` and its timer, of
-- webapp/src/utils/voiceSession.js.
use Prim.Native.Nat.{◌<◌}
use mattermost_plugin_voices.Base.{
  ℕ, String, Bool, true, false, not, ◌&&◌, none, some, ◌≡◌, arith, eq_iff, ◌==◌, if◌then◌else◌,
}
use mattermost_plugin_voices.Base.Dict.{find, find-drop_key}
use mattermost_plugin_voices.Voice.Session.{VoiceSession}
use mattermost_plugin_voices.Voice.Peers.{peer_timed_out}
use mattermost_plugin_voices.Voice.Steps.{Event, closes, attaches, detaches}

-- whether the table has a connected peer under this id
abbrev pub is_connected : String → VoiceSession → Bool
is_connected id s = elim (find id s.peers) [ none ↦ false | some n ↦ (s.records n).view.connected ]

-- A timer drops the peer that it was set for exactly if that peer is not connected, and no other.
pub find-peer_timed_out :
    (timer : ℕ) (from id : String) (s : VoiceSession)
    → find id (peer_timed_out timer from s).peers
      ≡ (if from == id && not (is_connected from s) then none else find id s.peers)
unfolding peer_timed_out
find-peer_timed_out timer from id s = ground (arith, eq_iff from id, find-drop_key from id s.peers)

-- The session holds a connected peer under an id, in the record n, and all later records are new.
record Holds (id : String) (n : ℕ) (s : VoiceSession) : Type 0 where
  found : find id s.peers ≡ some n
  old : n < s.next
  connected : (s.records n).connected ≡ true

-- an event that does not attach or detach a peer under this id and does not close the session
abbrev pub spares : String → Event → Bool
spares id (attaches peer other user_id) = not (other == id)
spares id (detaches other) = not (other == id)
spares id (closes done how) = false
spares id _ = true
