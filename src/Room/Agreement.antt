-- ===== src/Room/Agreement.antt =====
-- The events of Room/Steps.antt against Room/Agrees.antt.
pub mod Frames
pub mod Moves
use mattermost_plugin_voices.Base.{
  ℕ, suc, String, Bool, true, false, not, ◌&&◌, ◌||◌, Option, none, some, List, [], ◌∷◌, ◌≡◌, refl,
  sym, ap, ◌∙◌, eqb, all, is_some, is_set, arith, Bool-cases, Option-cases, ◌⊎◌, inl, inr,
  if◌then◌else◌, ◌==◌,
}
use mattermost_plugin_voices.Base.Js.{Value}
use mattermost_plugin_voices.Media.{MediaStream}
use mattermost_plugin_voices.Voice.Session
use mattermost_plugin_voices.Voice.Session.{
  VoiceSession, SwarmClose, is_active, is_active_state, is_idle, acquired, hub_created,
}
use mattermost_plugin_voices.Voice.Peers.{
  HubPeer, register_hub_peer, set_microphone_enabled, set_speaker_enabled, peer_timed_out,
  attach_peer, peer_stream, peer_data, detach_peer,
}
use mattermost_plugin_voices.Voice.Ownership.{
  Owns, Aside, Aside-Owns, new_session-Owns, acquired-Owns, hub_created-Owns, register-Aside,
  timed_out-Aside, attach-Aside, stream-Aside, data-Aside, detach-Aside, microphone-Aside,
  speaker-Aside,
}
use mattermost_plugin_voices.Room.Controller.{stop_presence, start_directory, stop_directory}
use mattermost_plugin_voices.Room.Panel.{
  Panel, ActiveRoom, Room, Task, finish_join, nothing, delete_room, disconnected, new_panel,
  halt_presence, clear_presence, emit, control, is_in, announce_presence,
}
use mattermost_plugin_voices.Room.Joining.{
  PresenceChange, next_transition, sound_departure, handle_join_room, leave_room_internal,
  handle_leave_room, handle_delete_room, disconnect_local_room, handle_presence_sound,
  handle_exclusive_presence_change, presence_changed, unmount, cleanup_connection, run_task,
}
use mattermost_plugin_voices.Room.Connecting.{
  handle_request_perms, media_answered, connect_to_swarm, hub_answered, reconcile_voice_connection,
  handle_hub_data, hub_connect_message, handle_audio_toggle, handle_speaker_toggle, rooms_answered,
  room_created, apply_rooms, bootstrap_directory, heartbeat_fires,
}
use mattermost_plugin_voices.Room.Steps.{
  Event, mounts, joins, leaves, deletes, creates, presence_changes, unmounts, swarm_finishes,
  updates, media_arrives, hub_arrives, hub_data, rooms_arrive, beats, toggles_audio,
  toggles_speaker, peer_times_out, peer_attaches, peer_streams, peer_sends, peer_detaches, step,
  run, local,
}
use mattermost_plugin_voices.Room.Effect.{play_leave_sound}
use mattermost_plugin_voices.Room.Older.{are_older-suc}
use mattermost_plugin_voices.Room.Agrees.{waits_older, Agrees, finish_close-Agrees}
use mattermost_plugin_voices.Room.Agrees.Closing.{
  Quiet, is_passive, join-Agrees, leave-Quiet, reset-Agrees, gone-Agrees,
}
use mattermost_plugin_voices.Room.Agreement.Frames.{
  Stays-Agrees, peers-Agrees, mounts-Stays, audio-Stays, speaker-Stays, rooms-Stays, beats-Stays,
  same-Agrees, updates-Agrees, media-Agrees, hub-Agrees, hub_data-Agrees,
}
use mattermost_plugin_voices.Room.Agreement.Moves.{
  handle_join_room-Agrees, leave_room_internal-Agrees, delete-Agrees, presence-Agrees,
  created-Agrees, unmount-Agrees,
}

-- whether an event names the room that it enters
abbrev pub names_room : Event → Bool
names_room (joins room_id name how) = is_set room_id
names_room (creates room_id name rooms how) = is_set room_id
names_room _ = true

module _ (user_id : String) where
  pub step-Agrees :
      (e : Event) (p : Panel) → names_room e ≡ true → Agrees p → Agrees (step user_id e p)
  unfolding step handle_leave_room
  step-Agrees mounts p i a = same-Agrees p _ a (mounts-Stays p)
  step-Agrees (joins r name how) p i a = handle_join_room-Agrees r name how p i a
  step-Agrees (leaves how) p i a = leave_room_internal-Agrees nothing how p refl a
  step-Agrees (deletes r how) p i a = delete-Agrees r how p a
  step-Agrees (creates r name rooms how) p i a = created-Agrees r name rooms how p i a
  step-Agrees (presence_changes c how) p i a = presence-Agrees user_id c how p a
  step-Agrees (unmounts how) p i a = unmount-Agrees how p a
  step-Agrees (swarm_finishes n) p i a = finish_close-Agrees n p a
  step-Agrees (updates ready) p i a = updates-Agrees ready p a
  step-Agrees (media_arrives r m) p i a = media-Agrees r m p a
  step-Agrees (hub_arrives r h sw) p i a = hub-Agrees r h sw p a
  step-Agrees (hub_data m) p i a = hub_data-Agrees user_id m p a
  step-Agrees (rooms_arrive e rooms) p i a = same-Agrees p _ a (rooms-Stays e rooms p)
  step-Agrees beats p i a = same-Agrees p _ a (beats-Stays p)
  step-Agrees toggles_audio p i a =
      let (s, x) = audio-Stays p in Stays-Agrees p _ a (Aside-Owns p.session _ a.owns x) s
  step-Agrees toggles_speaker p i a =
      let (s, x) = speaker-Stays p in Stays-Agrees p _ a (Aside-Owns p.session _ a.owns x) s
  step-Agrees (peer_times_out t from) p i a = peers-Agrees _ p a (timed_out-Aside t from p.session)
  step-Agrees (peer_attaches peer id) p i a =
      peers-Agrees _ p a (attach-Aside peer id user_id p.session)
  step-Agrees (peer_streams n id m) p i a =
      peers-Agrees _ p a (stream-Aside n id m p.speaker_on p.session)
  step-Agrees (peer_sends peer n m) p i a =
      peers-Agrees _ p a (data-Aside peer n (local p) m p.session)
  step-Agrees (peer_detaches id) p i a = peers-Agrees _ p a (detach-Aside id p.session)

  pub new_panel-Agrees : Agrees new_panel
  new_panel-Agrees = ground (arith, new_session-Owns)

  run-Agrees_from :
      (es : List Event) (p : Panel)
      → all names_room es ≡ true
      → Agrees p
      → Agrees (run user_id es p)
  unfolding run
  run-Agrees_from [] p i a = a
  run-Agrees_from (e ∷ es) p i a =
      run-Agrees_from es _ (ground arith) (step-Agrees e p (ground arith) a)

  -- After any events at all in which every room that is entered has a name, a panel that is mounted
  -- shows the room of its voice session whenever that session is active, none when it is idle, and
  -- while it closes a room only if a join that is still wanted waits for the close; a presence that
  -- is repeated names the room of the session; a panel that is gone repeats none and has no active
  -- session.
  pub run-Agrees : (es : List Event) → all names_room es ≡ true → Agrees (run user_id es new_panel)
  run-Agrees es i = run-Agrees_from es new_panel i new_panel-Agrees
