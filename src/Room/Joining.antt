-- ===== src/Room/Joining.antt =====
-- Entering, leaving and switching rooms: `handleJoinRoom`, `leaveRoomInternal`, `handleDeleteRoom`,
-- `disconnectLocalRoom` and `componentWillUnmount` of
-- webapp/src/components/modals/audio_group_call/audio_group_call.jsx. How the swarm answers the
-- close of the voice session is given with each of them.
use mattermost_plugin_voices.Base.{
  ℕ, suc, String, Bool, true, false, not, ◌&&◌, Option, none, some, List, [], ◌∷◌, is_some, eqb,
  if◌then◌else◌, ◌==◌, is_set,
}
use mattermost_plugin_voices.Voice.Session
use mattermost_plugin_voices.Voice.Session.{
  VoiceSession, SwarmClose, at_once, later, throws, is_closing, close, finish,
}
use mattermost_plugin_voices.Room.Effect.{
  request_deletion, play_join_sound, play_leave_sound, fetch_rooms,
}
use mattermost_plugin_voices.Room.Picker.{hide}
use mattermost_plugin_voices.Room.Controller.{stop_directory}
use mattermost_plugin_voices.Room.Panel.{
  Panel, ActiveRoom, Task, finish_join, nothing, delete_room, disconnected, emit, control,
  halt_presence, clear_presence, begin_presence, reset_active_room_state, is_in,
}

-- the `setState` of `finishJoin`
abbrev pub entered : (room_id name : String) → Panel → Panel
entered room_id name p = record p {
  active_room = some (record { room_id = room_id; name = name });
  initialized = false;
  swarm_initialized = false;
  audio_on = true;
  speaker_on = true;
  audio_enabled = true;
  video_enabled = false;
  picker = hide p.picker;
}

-- `finishJoin` behind its guards
unfoldable pub enter_room : (room_id name : String) → Panel → Panel
unfolding Session.start begin_presence
enter_room room_id name p =
    let (s, started) = Session.start room_id p.session in
    if started then begin_presence room_id (entered room_id name (record p { session = s })) else p

unfoldable pub run_task : Task → Panel → Panel
unfolding enter_room emit
run_task (finish_join transition_id room_id name) p =
    if not (eqb transition_id p.room_transition_id)
    then p
    else if p.is_unmounted
    then record p { connect_pending = false }
    else enter_room room_id name (record p { connect_pending = false })
run_task nothing p = p
run_task (delete_room room_id) p = emit (request_deletion room_id ∷ []) p
run_task disconnected p = record p { connect_pending = false }

unfoldable pub run_tasks : List ℕ → Panel → Panel
unfolding run_task
run_tasks [] p = p
run_tasks (n ∷ ns) p = run_tasks ns (run_task (p.tasks n) p)

-- The callbacks that `finish` of the close with this number calls.
abbrev pub called : ℕ → VoiceSession → List ℕ
called number s = elim s.pending [
  | none ↦ []
  | some q ↦ if eqb q.number number then s.cleanup_callbacks else []
]

-- The swarm or the timeout calls `finish`: the session is idle before its callbacks run.
unfoldable pub finish_close : (number : ℕ) → Panel → Panel
unfolding finish run_tasks
finish_close number p =
    run_tasks (called number p.session) (record p { session = finish number p.session })

abbrev pub is_later : SwarmClose → Bool
is_later later = true
is_later _ = false

-- whether `close` calls its callback before it returns
abbrev pub closes_at_once : SwarmClose → VoiceSession → Bool
closes_at_once how s = not (is_closing s.state) && not (is_some s.swarm && is_later how)

abbrev pub with_task : ℕ → Task → (ℕ → Task) → ℕ → Task
with_task n t tasks m = if eqb m n then t else tasks m

-- `cleanupConnection(task)`
unfoldable pub cleanup_connection : Task → SwarmClose → Panel → Panel
unfolding close run_task
cleanup_connection task how p =
    let q = record p {
      tasks = with_task p.next_task task p.tasks;
      next_task = suc p.next_task;
      session = close p.next_task how p.session;
    } in
    if closes_at_once how p.session then run_task task q else q

abbrev pub next_transition : Bool → Panel → Panel
next_transition pending p = record p {
  room_transition_id = suc p.room_transition_id;
  connect_pending = pending;
}

unfoldable pub disconnect_local_room : SwarmClose → Panel → Panel
unfolding halt_presence cleanup_connection reset_active_room_state
disconnect_local_room how p =
    reset_active_room_state
      (cleanup_connection disconnected how (halt_presence (next_transition true p)))

-- the sound of a departure
abbrev pub sound_departure : Panel → Panel
sound_departure p = if is_some p.active_room then emit (play_leave_sound ∷ []) p else p

unfoldable pub leave_room_internal : Task → SwarmClose → Panel → Panel
unfolding clear_presence cleanup_connection reset_active_room_state
leave_room_internal task how p =
    reset_active_room_state
      (cleanup_connection task how (clear_presence (sound_departure (next_transition false p))))

unfoldable pub handle_leave_room : SwarmClose → Panel → Panel
unfolding leave_room_internal
handle_leave_room how p = leave_room_internal nothing how p

unfoldable pub handle_delete_room : (room_id : String) → SwarmClose → Panel → Panel
unfolding leave_room_internal emit
handle_delete_room room_id how p =
    if is_in p.active_room room_id
    then leave_room_internal (delete_room room_id) how p
    else emit (request_deletion room_id ∷ []) p

-- `handleJoinRoom`
unfoldable pub handle_join_room : (room_id name : String) → SwarmClose → Panel → Panel
unfolding halt_presence cleanup_connection
handle_join_room room_id name how p =
    if is_in p.active_room room_id
    then p
    else let q = halt_presence (next_transition true (sound_departure p)) in
      cleanup_connection (finish_join q.room_transition_id room_id name) how q

-- what the websocket tells of a user's presence
pub record PresenceChange : Type 0 where
  pub user_id : String
  pub room_id : String
  pub previous_room_id : String

abbrev pub active_room_id : Option ActiveRoom → String
active_room_id none = ""
active_room_id (some a) = a.room_id

-- `handlePresenceSound`
unfoldable pub handle_presence_sound : PresenceChange → Panel → Panel
unfolding emit
handle_presence_sound c p =
    let moved = not (c.room_id == c.previous_room_id) in
    let q =
      if is_set c.room_id && moved && active_room_id p.active_room == c.room_id
      then emit (play_join_sound ∷ []) p
      else p in
    if is_set c.previous_room_id && moved && active_room_id p.active_room == c.previous_room_id
    then emit (play_leave_sound ∷ []) q
    else q

-- `handleExclusivePresenceChange`: `user_id` is the panel's own user.
unfoldable pub handle_exclusive_presence_change :
    (user_id : String) → PresenceChange → SwarmClose → Panel → Panel
unfolding disconnect_local_room
handle_exclusive_presence_change user_id c how p =
    if c.user_id == user_id
      && is_in p.active_room c.previous_room_id
      && not (is_in p.active_room c.room_id)
    then disconnect_local_room how p
    else p

-- the listener of `startDirectoryEvents`
unfoldable pub presence_changed : (user_id : String) → PresenceChange → SwarmClose → Panel → Panel
unfolding handle_presence_sound handle_exclusive_presence_change emit
presence_changed user_id c how p =
    emit (fetch_rooms ∷ [])
      (handle_exclusive_presence_change user_id c how (handle_presence_sound c p))

-- `componentWillUnmount`, without the subscriptions and the invitations
unfoldable pub unmount : SwarmClose → Panel → Panel
unfolding halt_presence cleanup_connection control stop_directory
unmount how p =
    let q = cleanup_connection nothing how (halt_presence (record p { is_unmounted = true })) in
    control (stop_directory q.controller) q
