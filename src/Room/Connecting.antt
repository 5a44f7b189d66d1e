-- ===== src/Room/Connecting.antt =====
-- Media and the connection of the room that the panel is in: `reconcileVoiceConnection`,
-- `handleRequestPerms`, `connectToSwarm`, `handleHubData`, the toggles and the directory, of
-- webapp/src/components/modals/audio_group_call/audio_group_call.jsx. The two asynchronous methods
-- are cut at their awaits.
use mattermost_plugin_voices.Base.{
  ℕ, String, Bool, true, false, not, ◌&&◌, ◌||◌, Option, none, some, List, [], ◌∷◌, is_some, is_set,
  if◌then◌else◌, ◌==◌,
}
use mattermost_plugin_voices.Base.Js.{Value, str, get, is_text, is_object, text_of}
use mattermost_plugin_voices.Media.{MediaStream}
use mattermost_plugin_voices.Voice.Session
use mattermost_plugin_voices.Voice.Session.{
  VoiceSession, SwarmClose, is_active, acquired, hub_created,
}
use mattermost_plugin_voices.Voice.Peers.{
  HubPeer, register_hub_peer, set_microphone_enabled, set_speaker_enabled,
}
use mattermost_plugin_voices.Room.Effect.{request_microphone, request_hub}
use mattermost_plugin_voices.Room.Controller.{start_directory}
use mattermost_plugin_voices.Room.Panel.{Panel, Room, emit, control, announce_presence, is_in}
use mattermost_plugin_voices.Room.Joining.{handle_join_room}

-- `handleRequestPerms` up to its await, for the room that it asks for
unfoldable pub handle_request_perms : Panel → Panel
unfolding emit
handle_request_perms p = elim p.active_room [
  | none ↦ p
  | some a ↦
      if p.media_request_pending || not p.audio_on
      then p
      else emit (request_microphone a.room_id ∷ []) (record p { media_request_pending = true })
]

-- the rest of it; `none` is a browser that refuses
unfoldable pub media_answered : (room_id : String) → Option MediaStream → Panel → Panel
unfolding acquired announce_presence
media_answered room_id m p =
    let (s, a) = acquired room_id m p.session in
    let q = record p { session = s; media_request_pending = false } in
    if q.is_unmounted || not a.active || not (is_in q.active_room room_id) || not q.audio_on
    then q
    else announce_presence room_id (record q {
      initialized = true;
      audio_enabled = a.audio_enabled;
      video_enabled = a.video_enabled;
    })

-- `!this.voiceSession.isActive(roomId) && !this.voiceSession.start(roomId)` is false: the session
-- that goes on, or `none`
abbrev pub ensure_active : (room_id : String) → VoiceSession → Option VoiceSession
ensure_active room_id s =
    if is_active room_id s
    then some s
    else (if (Session.start room_id s).1 then some (Session.start room_id s).0 else none)

-- `connectToSwarm` up to the await in `connect`; `ready` says that the two configurations have come.
unfoldable pub connect_to_swarm : (ready : Bool) → Panel → Panel
unfolding emit Session.start is_active
connect_to_swarm ready p = elim p.active_room [
  | none ↦ p
  | some a ↦
      if not ready || is_some p.session.swarm || p.connect_pending
      then p
      else elim (ensure_active a.room_id p.session) [
        | none ↦ p
        | some s ↦
            emit (request_hub a.room_id ∷ []) (record p { session = s; connect_pending = true })
      ]
]

-- `connect` once the hub is there, and the `finally` of `connectToSwarm`
unfoldable pub hub_answered : (room_id : String) (hub swarm : Option ℕ) → Panel → Panel
unfolding hub_created
hub_answered room_id hub swarm p = record p {
  session = (hub_created room_id hub (is_in p.active_room room_id) swarm p.session).0;
  connect_pending = false;
}

-- `reconcileVoiceConnection`
unfoldable pub reconcile_voice_connection : (ready : Bool) → Panel → Panel
unfolding handle_request_perms connect_to_swarm
reconcile_voice_connection ready p =
    if is_some p.active_room && p.audio_on && not p.initialized && not p.media_request_pending
    then handle_request_perms p
    else if is_some p.active_room
        && p.initialized
        && not p.swarm_initialized
        && not p.connect_pending
        && not (is_some p.session.swarm)
    then connect_to_swarm ready p
    else p

abbrev pub is_string : Value → Bool
is_string (str s) = true
is_string _ = false

-- `validHubConnectMessage`, with the peer of a message that it lets through
unfoldable pub hub_connect_message : (own_id : String) → Value → Option HubPeer
hub_connect_message own_id m =
    if is_object m
      && is_text (get "type" m) "connect"
      && is_string (get "from" m)
      && not (is_text (get "from" m) own_id)
      && is_string (get "fromUsername" m)
      && is_set (text_of (get "fromUsername" m))
    then some (record {
      from = text_of (get "from" m);
      from_user_id = text_of (get "fromUserId" m);
      from_username = text_of (get "fromUsername" m);
      from_display_name = text_of (get "fromDisplayName" m);
    })
    else none

unfoldable pub handle_hub_data : (own_id : String) → Value → Panel → Panel
unfolding hub_connect_message register_hub_peer
handle_hub_data own_id m p = elim (hub_connect_message own_id m) [
  | none ↦ p
  | some peer ↦ record p {
    swarm_initialized = true;
    session = (register_hub_peer peer p.session).0;
  }
]

-- the callback of a `setState` that changes the microphone
abbrev pub announce_in_room : Panel → Panel
announce_in_room p = elim p.active_room [ none ↦ p | some a ↦ announce_presence a.room_id p ]

unfoldable pub handle_audio_toggle : Panel → Panel
unfolding set_microphone_enabled announce_presence
handle_audio_toggle p = announce_in_room (record p {
  session = set_microphone_enabled (not p.audio_on) p.session;
  audio_on = not p.audio_on;
})

unfoldable pub handle_speaker_toggle : Panel → Panel
unfolding set_microphone_enabled set_speaker_enabled announce_presence
handle_speaker_toggle p =
    let s = set_speaker_enabled (not p.speaker_on) p.session in
    if p.speaker_on && p.audio_on
    then announce_in_room (record p {
      session = set_microphone_enabled false s;
      speaker_on = not p.speaker_on;
      audio_on = false;
    })
    else record p { session = s; speaker_on = not p.speaker_on }

-- `applyRooms`
unfoldable pub apply_rooms : List Room → Panel → Panel
apply_rooms rooms p =
    if p.is_unmounted then p else record p { channel_list = rooms; directory_error = "" }

-- `reportDirectoryError`
unfoldable pub report_directory_error : (message : String) → Panel → Panel
report_directory_error message p =
    if p.is_unmounted then p else record p { directory_error = message }

-- The answer to a request whose promise goes to `onRooms` and `onError`: the rooms, or none.
unfoldable pub rooms_answered : (message : String) → Option (List Room) → Panel → Panel
unfolding apply_rooms report_directory_error
rooms_answered message none p = report_directory_error message p
rooms_answered message (some rooms) p = apply_rooms rooms p

-- what `handleDeleteRoom` says of an error
abbrev pub deletion_error : (forbidden : Bool) → String
deletion_error forbidden =
    if forbidden
    then "Only whoever created a voice channel can delete it."
    else "Could not delete that voice channel."

-- `handleCreateChannel` once the server has answered
unfoldable pub room_created :
    (room_id name : String) → Option (List Room) → SwarmClose → Panel → Panel
unfolding apply_rooms report_directory_error handle_join_room
room_created room_id name none how p =
    report_directory_error "Could not create that voice channel." p
room_created room_id name (some rooms) how p =
    if p.is_unmounted then p else handle_join_room room_id name how (apply_rooms rooms p)

-- the directory of `componentDidMount`
unfoldable pub bootstrap_directory : Panel → Panel
unfolding control start_directory
bootstrap_directory p = control (start_directory p.controller) p

-- The interval of the presence fires, which is there until it is cleared.
unfoldable pub heartbeat_fires : Panel → Panel
unfolding announce_presence
heartbeat_fires p = elim p.controller.presence_heartbeat [
  | none ↦ p
  | some h ↦ announce_presence h.room_id p
]

-- `canDeleteRoom`
unfoldable pub can_delete_room : (user_id : String) (is_system_admin : Bool) → Room → Bool
can_delete_room user_id is_system_admin room =
    is_system_admin || is_set room.creator_id && room.creator_id == user_id
