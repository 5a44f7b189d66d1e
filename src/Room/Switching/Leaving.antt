-- ===== src/Room/Switching/Leaving.antt =====
-- Leaving while the session of the room closes:
-- webapp/src/components/modals/audio_group_call/audio_group_call.jsx.
use mattermost_plugin_voices.Base.{
  none, all-append, all, ℕ, suc, true, false, some, List, [], ◌∷◌, ◌++◌, ◌≡◌, refl, ◌∙◌, arith,
}
use mattermost_plugin_voices.Voice.Session.{SwarmClose, Pending, is_idle, is_closing, close, finish}
use mattermost_plugin_voices.Room.Panel.{
  Panel, Task, finish_join, nothing, delete_room, disconnected, clear_presence,
  reset_active_room_state, emit,
}
use mattermost_plugin_voices.Room.Joining.{
  run_task, run_tasks, finish_close, with_task, next_transition, sound_departure, handle_leave_room,
  leave_room_internal, cleanup_connection,
}
use mattermost_plugin_voices.Room.Older.{is_older}
use mattermost_plugin_voices.Room.Agrees.{Agrees}
use mattermost_plugin_voices.Room.Agrees.Closing.{closed, cleanup_later}
use mattermost_plugin_voices.Room.Switching.{older_before, finished, close_again}

-- A panel that has left, with its session closed.
pub record IsOut (p : Panel) : Type 0 where
  pub idle : is_idle p.session.state ≡ true
  pub hidden : p.active_room ≡ none
  pub silent : p.controller.presence_heartbeat ≡ none

run_task-IsOut :
    (old : ℕ) (t : Task) (p : Panel)
    → p.room_transition_id ≡ suc old
    → is_older old t ≡ true
    → IsOut p
    → IsOut (run_task t p)
      × ((run_task t p).tasks ≡ p.tasks)
      × ((run_task t p).room_transition_id ≡ p.room_transition_id)
unfolding run_task
run_task-IsOut old (finish_join j s n) p e o h = ground arith
run_task-IsOut old nothing p e o h = ground arith
run_task-IsOut old (delete_room s) p e o h = ground arith
run_task-IsOut old disconnected p e o h = ground arith

run_tasks-IsOut :
    (old : ℕ) (ns : List ℕ) (p : Panel)
    → p.room_transition_id ≡ suc old
    → all (λ n. is_older old (p.tasks n)) ns ≡ true
    → IsOut p
    → IsOut (run_tasks ns p)
unfolding run_tasks
run_tasks-IsOut old [] p e o h = h
run_tasks-IsOut old (n ∷ ns) p e o h =
    let (out, same, next) = run_task-IsOut old (p.tasks n) p e (ground arith) h in
    run_tasks-IsOut old ns (run_task (p.tasks n) p) (next ∙ e) (rw same (ground arith)) out

-- What a leave does before it closes the session.
abbrev going : Panel → Panel
going p = clear_presence (sound_departure (next_transition false p))

going-frame :
    (p : Panel)
    → ((going p).session ≡ p.session)
      × ((going p).tasks ≡ p.tasks)
      × ((going p).next_task ≡ p.next_task)
      × ((going p).room_transition_id ≡ suc p.room_transition_id)
      × ((going p).is_unmounted ≡ p.is_unmounted)
      × ((going p).controller.presence_heartbeat ≡ none)
unfolding clear_presence emit
going-frame p = ground arith

leaves_so :
    (how : SwarmClose) (p : Panel)
    → handle_leave_room how p ≡ reset_active_room_state (cleanup_connection nothing how (going p))
unfolding handle_leave_room leave_room_internal
leaves_so how p = refl

-- A panel that has left, whose session still closes.
record Leaves (number old : ℕ) (q : Pending) (p : Panel) : Type 0 where
  pending : p.session.pending ≡ some q
  numbered : q.number ≡ number
  older : all (λ n. is_older old (p.tasks n)) p.session.cleanup_callbacks ≡ true
  transition : p.room_transition_id ≡ suc old
  hidden : p.active_room ≡ none
  silent : p.controller.presence_heartbeat ≡ none

Leaves-IsOut :
    (number old : ℕ) (q : Pending) (p : Panel)
    → Leaves number old q p
    → IsOut (finish_close number p)
unfolding finish_close
Leaves-IsOut number old q p a =
    let (all_called, i) = finished number q p.session a.pending a.numbered in
    rw all_called (
      run_tasks-IsOut old p.session.cleanup_callbacks
        (record p { session = finish number p.session }) a.transition a.older
        (record { idle = i; hidden = a.hidden; silent = a.silent }))

closed-Leaves :
    (number : ℕ) (how : SwarmClose) (q : Pending) (p d : Panel)
    → Agrees p
    → p.is_unmounted ≡ false
    → p.session.pending ≡ some q
    → q.number ≡ number
    → (d.session ≡ p.session)
      × (d.tasks ≡ p.tasks)
      × (d.next_task ≡ p.next_task)
      × (d.room_transition_id ≡ suc p.room_transition_id)
      × (d.is_unmounted ≡ p.is_unmounted)
      × (d.controller.presence_heartbeat ≡ none)
    → (close d.next_task how d.session ≡ record d.session {
      cleanup_callbacks = d.session.cleanup_callbacks ++ (d.next_task ∷ []);
    })
    → Leaves number p.room_transition_id q (reset_active_room_state (closed nothing how d))
unfolding reset_active_room_state
closed-Leaves number how q p d a u e n f g = ground (
  arith,
  a.older,
  all-append (λ m. is_older p.room_transition_id (with_task p.next_task nothing p.tasks m))
      p.session.cleanup_callbacks (p.next_task ∷ []),
  older_before p.next_task p.room_transition_id nothing p.tasks p.session.cleanup_callbacks,
)

-- While a session closes, leaving puts the panel out of every room as soon as the close finishes,
-- whatever joins were asked for before: its session is idle, it shows no room, and it repeats no
-- presence. The panel agrees with its session and is mounted.
pub last_leave_wins :
    (number : ℕ) (how : SwarmClose) (p : Panel) (q : Pending)
    → Agrees p
    → p.is_unmounted ≡ false
    → p.session.pending ≡ some q
    → q.number ≡ number
    → IsOut (finish_close number (handle_leave_room how p))
last_leave_wins number how p q a u e n =
    let c : is_closing p.session.state ≡ true = ground (arith, a.owns.pending) in
    let f = going-frame p in
    let (l, g) = close_again (going p).next_task how (going p).session (rw f.0 c) in
    rw (leaves_so how p, cleanup_later nothing how (going p) l)
      (Leaves-IsOut number p.room_transition_id q _
        (closed-Leaves number how q p (going p) a u e n f g))
