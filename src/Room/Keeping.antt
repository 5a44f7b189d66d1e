-- ===== src/Room/Keeping.antt =====
-- What the events of Room/Steps.antt do to the picker of users to invite: they leave it or hide it.
use mattermost_plugin_voices.Base.{
  ℕ, String, Bool, true, false, List, [], ◌∷◌, ◌≡◌, refl, Option, none, some, arith, ◌⊎◌, inl, inr,
  Option-cases,
}
use mattermost_plugin_voices.Base.Js.{Value}
use mattermost_plugin_voices.Voice.Session.{SwarmClose, finish}
use mattermost_plugin_voices.Room.Picker.{Picker, hide}
use mattermost_plugin_voices.Room.Panel.{
  Panel, Task, Room, finish_join, nothing, delete_room, disconnected, halt_presence, clear_presence,
  control, emit, reset_active_room_state,
}
use mattermost_plugin_voices.Room.Controller.{stop_directory}
use mattermost_plugin_voices.Room.Joining.{
  called, PresenceChange, run_task, run_tasks, finish_close, cleanup_connection, next_transition,
  sound_departure, handle_join_room, leave_room_internal, handle_leave_room, handle_delete_room,
  disconnect_local_room, presence_changed, handle_presence_sound, handle_exclusive_presence_change,
  unmount,
}
use mattermost_plugin_voices.Room.Connecting.{
  room_created, apply_rooms, reconcile_voice_connection, handle_hub_data, hub_connect_message,
  handle_request_perms, connect_to_swarm, report_directory_error,
}
use mattermost_plugin_voices.Room.Steps.{
  Event, mounts, joins, leaves, deletes, creates, presence_changes, unmounts, swarm_finishes,
  updates, media_arrives, hub_arrives, hub_data, rooms_arrive, beats, toggles_audio,
  toggles_speaker, peer_times_out, peer_attaches, peer_streams, peer_sends, peer_detaches, step,
  is_unmounting,
}
use mattermost_plugin_voices.Room.Agreement.Frames.{
  Stays, mounts-Stays, media-Stays, hub-Stays, rooms-Stays, beats-Stays, audio-Stays, speaker-Stays,
}

abbrev pub Keeps : Picker → Picker → Type 0
Keeps k l = (l ≡ k) ⊎ (l ≡ hide k)

-- It is mounted if it was.
pub record Kept (p q : Panel) : Type 0 where
  pub picker : Keeps p.picker q.picker
  pub mounted : q.is_unmounted ≡ p.is_unmounted

Kept-trans : (p q r : Panel) → Kept p q → Kept q r → Kept p r
Kept-trans p q r a b = ground arith

Kept-same : (p q : Panel) → q.picker ≡ p.picker → q.is_unmounted ≡ p.is_unmounted → Kept p q
Kept-same p q e f = ground arith

Stays-Kept : {p q : Panel} → Stays p q → Kept p q
Stays-Kept {p} {q} s = Kept-same p q s.picker s.unmounted

run_task-Kept : (t : Task) (p : Panel) → Kept p (run_task t p)
unfolding run_task
run_task-Kept (finish_join k r name) p = ground arith
run_task-Kept nothing p = Kept-same _ _ refl refl
run_task-Kept (delete_room r) p = ground arith
run_task-Kept disconnected p = Kept-same _ _ refl refl

run_tasks-Kept : (ns : List ℕ) (p : Panel) → Kept p (run_tasks ns p)
unfolding run_tasks
run_tasks-Kept [] p = Kept-same _ _ refl refl
run_tasks-Kept (n ∷ ns) p =
    Kept-trans _ _ _ (run_task-Kept (p.tasks n) p) (run_tasks-Kept ns (run_task (p.tasks n) p))

cleanup-Kept : (t : Task) (how : SwarmClose) (p : Panel) → Kept p (cleanup_connection t how p)
unfolding cleanup_connection
cleanup-Kept t how p = ground (arith, run_task-Kept t)

halt-same :
    (p : Panel)
    → ((halt_presence p).picker ≡ p.picker) × ((halt_presence p).is_unmounted ≡ p.is_unmounted)
unfolding halt_presence
halt-same p = ground arith

clear-same :
    (p : Panel)
    → ((clear_presence p).picker ≡ p.picker) × ((clear_presence p).is_unmounted ≡ p.is_unmounted)
unfolding clear_presence
clear-same p = ground arith

sound-same :
    (p : Panel)
    → ((sound_departure p).picker ≡ p.picker) × ((sound_departure p).is_unmounted ≡ p.is_unmounted)
unfolding emit
sound-same p = ground arith

reset-Kept : (p : Panel) → Kept p (reset_active_room_state p)
unfolding reset_active_room_state
reset-Kept p = ground arith

pub join-Kept :
    (r name : String) (how : SwarmClose) (p : Panel) → Kept p (handle_join_room r name how p)
unfolding handle_join_room
join-Kept r name how p =
    let q = halt_presence (next_transition true (sound_departure p)) in
    ground (
      arith,
      cleanup-Kept (finish_join q.room_transition_id r name) how q,
      halt-same (next_transition true (sound_departure p)),
      sound-same p,
    )

leave-Kept : (t : Task) (how : SwarmClose) (p : Panel) → Kept p (leave_room_internal t how p)
unfolding leave_room_internal
leave-Kept t how p =
    let q = clear_presence (sound_departure (next_transition false p)) in
    Kept-trans _ _ _
      (ground (
        arith,
        cleanup-Kept t how q,
        clear-same (sound_departure (next_transition false p)),
        sound-same (next_transition false p),
      ))
      (reset-Kept (cleanup_connection t how q))

disconnect-Kept : (how : SwarmClose) (p : Panel) → Kept p (disconnect_local_room how p)
unfolding disconnect_local_room
disconnect-Kept how p =
    let q = halt_presence (next_transition true p) in
    Kept-trans _ _ _
      (ground (arith, cleanup-Kept disconnected how q, halt-same (next_transition true p)))
      (reset-Kept (cleanup_connection disconnected how q))

delete-Kept : (r : String) (how : SwarmClose) (p : Panel) → Kept p (handle_delete_room r how p)
unfolding handle_delete_room emit
delete-Kept r how p = ground (arith, leave-Kept (delete_room r) how p)

presence-Kept :
    (u : String) (c : PresenceChange) (how : SwarmClose) (p : Panel)
    → Kept p (presence_changed u c how p)
unfolding presence_changed handle_exclusive_presence_change handle_presence_sound emit
presence-Kept u c how p = let q = handle_presence_sound c p in ground (arith, disconnect-Kept how q)

created-Kept :
    (r name : String) (rooms : Option (List Room)) (how : SwarmClose) (p : Panel)
    → Kept p (room_created r name rooms how p)
unfolding room_created apply_rooms report_directory_error
created-Kept r name none how p = ground arith
created-Kept r name (some rooms) how p = ground (arith, join-Kept r name how (apply_rooms rooms p))

pub unmount-Keeps : (how : SwarmClose) (p : Panel) → Keeps p.picker (unmount how p).picker
unfolding unmount control stop_directory
unmount-Keeps how p =
    let q = halt_presence (record p { is_unmounted = true }) in
    ground (arith, cleanup-Kept nothing how q, halt-same (record p { is_unmounted = true }))

pub unmount-gone : (how : SwarmClose) (p : Panel) → (unmount how p).is_unmounted ≡ true
unfolding unmount control stop_directory
unmount-gone how p =
    let q = halt_presence (record p { is_unmounted = true }) in
    ground (arith, cleanup-Kept nothing how q, halt-same (record p { is_unmounted = true }))

finish-Kept : (n : ℕ) (p : Panel) → Kept p (finish_close n p)
unfolding finish_close
finish-Kept n p =
    Kept-trans _ _ _ (Kept-same p (record p { session = finish n p.session }) refl refl)
      (run_tasks-Kept (called n p.session) (record p { session = finish n p.session }))

hub_data-Kept : (own_id : String) (m : Value) (p : Panel) → Kept p (handle_hub_data own_id m p)
unfolding handle_hub_data
hub_data-Kept own_id m p = elim (Option-cases (hub_connect_message own_id m)) [
  | inl n ↦ rw (n, handle_hub_data) (Kept-same p p refl refl)
  | inr (peer, e) ↦ rw (e, handle_hub_data) (Kept-same p _ refl refl)
]

reconcile-same :
    (ready : Bool) (p : Panel)
    → ((reconcile_voice_connection ready p).picker ≡ p.picker)
      × ((reconcile_voice_connection ready p).is_unmounted ≡ p.is_unmounted)
unfolding reconcile_voice_connection handle_request_perms connect_to_swarm
reconcile-same ready p = ground arith

module _ (user_id : String) where
  pub step-Kept : (e : Event) (p : Panel) → is_unmounting e ≡ false → Kept p (step user_id e p)
  unfolding step handle_leave_room
  step-Kept mounts p u = Stays-Kept (mounts-Stays p).1
  step-Kept (joins r name how) p u = join-Kept r name how p
  step-Kept (leaves how) p u = leave-Kept nothing how p
  step-Kept (deletes r how) p u = delete-Kept r how p
  step-Kept (creates r name rooms how) p u = created-Kept r name rooms how p
  step-Kept (presence_changes c how) p u = presence-Kept user_id c how p
  step-Kept (unmounts how) p u = ground arith
  step-Kept (swarm_finishes n) p u = finish-Kept n p
  step-Kept (updates ready) p u = ground (arith, reconcile-same ready p)
  step-Kept (media_arrives r m) p u = Stays-Kept (media-Stays r m p)
  step-Kept (hub_arrives r h sw) p u = Stays-Kept (hub-Stays r h sw p)
  step-Kept (hub_data m) p u = hub_data-Kept user_id m p
  step-Kept (rooms_arrive e rooms) p u = Stays-Kept (rooms-Stays e rooms p).1
  step-Kept beats p u = Stays-Kept (beats-Stays p).1
  step-Kept toggles_audio p u = Stays-Kept (audio-Stays p).0
  step-Kept toggles_speaker p u = Stays-Kept (speaker-Stays p).0
  step-Kept (peer_times_out t from) p u = Kept-same _ _ refl refl
  step-Kept (peer_attaches peer id) p u = Kept-same _ _ refl refl
  step-Kept (peer_streams n id m) p u = Kept-same _ _ refl refl
  step-Kept (peer_sends peer n m) p u = Kept-same _ _ refl refl
  step-Kept (peer_detaches id) p u = Kept-same _ _ refl refl
