-- ===== src/Room/Steps.antt =====
-- The events of a panel, each with what handles it. An event of a peer of the voice session is one of
-- webapp/src/utils/voiceSession.js that the panel only passes on. React tells of an update of a panel
-- that is mounted.
use mattermost_plugin_voices.Base.{
  ℕ, String, Bool, true, false, Option, List, [], ◌∷◌, if◌then◌else◌,
}
use mattermost_plugin_voices.Base.Js.{Value}
use mattermost_plugin_voices.Media.{MediaStream}
use mattermost_plugin_voices.Voice.Effect.{PeerMessage}
use mattermost_plugin_voices.Voice.Session.{SwarmClose}
use mattermost_plugin_voices.Voice.Peers.{
  Local, peer_timed_out, attach_peer, peer_stream, peer_data, detach_peer,
}
use mattermost_plugin_voices.Room.Panel.{Panel, Room}
use mattermost_plugin_voices.Room.Joining.{
  PresenceChange, handle_join_room, handle_leave_room, handle_delete_room, presence_changed,
  finish_close, unmount,
}
use mattermost_plugin_voices.Room.Connecting.{
  media_answered, hub_answered, reconcile_voice_connection, handle_hub_data, handle_audio_toggle,
  handle_speaker_toggle, rooms_answered, room_created, bootstrap_directory, heartbeat_fires,
}

pub data Event : Type 0 where
  mounts : Event
  joins : (room_id name : String) → SwarmClose → Event
  leaves : SwarmClose → Event
  deletes : (room_id : String) → SwarmClose → Event
  creates : (room_id name : String) → Option (List Room) → SwarmClose → Event
  presence_changes : PresenceChange → SwarmClose → Event
  unmounts : SwarmClose → Event
  swarm_finishes : (number : ℕ) → Event
  updates : (ready : Bool) → Event
  media_arrives : (room_id : String) → Option MediaStream → Event
  hub_arrives : (room_id : String) (hub swarm : Option ℕ) → Event
  hub_data : Value → Event
  rooms_arrive : (message : String) → Option (List Room) → Event
  beats : Event
  toggles_audio toggles_speaker : Event
  peer_times_out : (timer : ℕ) (from : String) → Event
  peer_attaches : (peer : ℕ) (id : String) → Event
  peer_streams : (n : ℕ) (id : String) → MediaStream → Event
  peer_sends : (peer n : ℕ) → PeerMessage → Event
  peer_detaches : String → Event

abbrev pub is_unmounting : Event → Bool
is_unmounting (unmounts how) = true
is_unmounting _ = false

-- what `getLocalState` answers
abbrev pub local : Panel → Local
local p = record {
  audio_on = p.audio_on;
  audio_enabled = p.audio_enabled;
  video_on = false;
  video_enabled = p.video_enabled;
}

module _ (user_id : String) where
  unfoldable pub step : Event → Panel → Panel
  step mounts p = bootstrap_directory p
  step (joins room_id name how) p = handle_join_room room_id name how p
  step (leaves how) p = handle_leave_room how p
  step (deletes room_id how) p = handle_delete_room room_id how p
  step (creates room_id name rooms how) p = room_created room_id name rooms how p
  step (presence_changes c how) p = presence_changed user_id c how p
  step (unmounts how) p = unmount how p
  step (swarm_finishes number) p = finish_close number p
  step (updates ready) p = if p.is_unmounted then p else reconcile_voice_connection ready p
  step (media_arrives room_id m) p = media_answered room_id m p
  step (hub_arrives room_id hub swarm) p = hub_answered room_id hub swarm p
  step (hub_data m) p = handle_hub_data user_id m p
  step (rooms_arrive message rooms) p = rooms_answered message rooms p
  step beats p = heartbeat_fires p
  step toggles_audio p = handle_audio_toggle p
  step toggles_speaker p = handle_speaker_toggle p
  step (peer_times_out timer from) p = record p { session = peer_timed_out timer from p.session }
  step (peer_attaches peer id) p = record p { session = (attach_peer peer id user_id p.session).0 }
  step (peer_streams n id m) p = record p { session = peer_stream n id m p.speaker_on p.session }
  step (peer_sends peer n m) p = record p { session = peer_data peer n (local p) m p.session }
  step (peer_detaches id) p = record p { session = detach_peer id p.session }

  unfoldable pub run : List Event → Panel → Panel
  unfolding step
  run [] p = p
  run (e ∷ es) p = run es (step e p)
