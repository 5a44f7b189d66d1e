-- ===== src/Voice/Steps.antt =====
-- What calls a voice session, event by event, in any order.
use mattermost_plugin_voices.Base.{ℕ, String, Bool, Option, List, [], ◌∷◌}
use mattermost_plugin_voices.Media.{MediaStream}
use mattermost_plugin_voices.Voice.Effect.{PeerMessage}
use mattermost_plugin_voices.Voice.Session.{
  VoiceSession, SwarmClose, start, acquired, hub_created, close, finish,
}
use mattermost_plugin_voices.Voice.Peers.{
  HubPeer, Local, register_hub_peer, peer_timed_out, attach_peer, peer_stream, peer_data,
  detach_peer, set_microphone_enabled, set_speaker_enabled,
}

pub data Event : Type 0 where
  starts : (room_id : String) → Event
  acquires : (room_id : String) → Option MediaStream → Event
  creates_hub : (room_id : String) (hub : Option ℕ) (is_current : Bool) (swarm : Option ℕ) → Event
  closes : (done : ℕ) → SwarmClose → Event
  finishes : (number : ℕ) → Event
  registers : HubPeer → Event
  times_out : (timer : ℕ) (from : String) → Event
  attaches : (peer : ℕ) (id user_id : String) → Event
  streams : (n : ℕ) (id : String) → MediaStream → (speaker_on : Bool) → Event
  sends : (peer n : ℕ) → Local → PeerMessage → Event
  detaches : String → Event
  sets_microphone sets_speaker : Bool → Event

unfoldable pub step : Event → VoiceSession → VoiceSession
step (starts room_id) s = (start room_id s).0
step (acquires room_id m) s = (acquired room_id m s).0
step (creates_hub room_id hub is_current swarm) s = (hub_created room_id hub is_current swarm s).0
step (closes done how) s = close done how s
step (finishes number) s = finish number s
step (registers m) s = (register_hub_peer m s).0
step (times_out timer from) s = peer_timed_out timer from s
step (attaches peer id user_id) s = (attach_peer peer id user_id s).0
step (streams n id m speaker_on) s = peer_stream n id m speaker_on s
step (sends peer n local m) s = peer_data peer n local m s
step (detaches id) s = detach_peer id s
step (sets_microphone enabled) s = set_microphone_enabled enabled s
step (sets_speaker enabled) s = set_speaker_enabled enabled s

unfoldable pub run : List Event → VoiceSession → VoiceSession
unfolding step
run [] s = s
run (e ∷ es) s = run es (step e s)
