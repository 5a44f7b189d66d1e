-- ===== src/Room/Switching.antt =====
-- Which room a panel enters when its session has closed:
-- webapp/src/components/modals/audio_group_call/audio_group_call.jsx.

pub mod Leaving
use mattermost_plugin_voices.Base.{
  ℕ, suc, String, true, false, some, List, [], ◌∷◌, ◌++◌, ◌≡◌, refl, ◌∙◌, all, is_set, arith,
}
use mattermost_plugin_voices.Voice.Session
use mattermost_plugin_voices.Voice.Session.{
  VoiceSession, SwarmClose, Pending, is_idle, is_active_state, is_closing, close, finish,
}
use mattermost_plugin_voices.Room.Panel.{
  Panel, Task, finish_join, nothing, delete_room, disconnected, halt_presence, is_in, emit,
}
use mattermost_plugin_voices.Room.Joining.{
  run_task, run_tasks, finish_close, called, with_task, next_transition, sound_departure,
  handle_join_room, cleanup_connection, closes_at_once,
}
use mattermost_plugin_voices.Room.Older.{is_older, are_older}
use mattermost_plugin_voices.Room.Agrees.{Agrees, room_of, room_of_heartbeat}
use mattermost_plugin_voices.Room.Agrees.Closing.{closed, cleanup_later}

-- A panel that is in a room: it shows it, its session is active in it, and its presence names it.
pub record IsIn (r : String) (p : Panel) : Type 0 where
  pub shown : room_of p.active_room ≡ some r
  pub session : p.session.room_id ≡ some r
  pub active : is_active_state p.session.state ≡ true
  pub announced : room_of_heartbeat p.controller.presence_heartbeat ≡ some r

-- A panel whose session has just closed, with the callback of a join of the transition `suc old`.
record Ready (old k : ℕ) (r name : String) (p : Panel) : Type 0 where
  transition : p.room_transition_id ≡ suc old
  mounted : p.is_unmounted ≡ false
  idle : is_idle p.session.state ≡ true
  task : p.tasks k ≡ finish_join (suc old) r name

run_task-Ready :
    (old k : ℕ) (r name : String) (t : Task) (p : Panel)
    → is_older old t ≡ true
    → Ready old k r name p
    → Ready old k r name (run_task t p) × ((run_task t p).tasks ≡ p.tasks)
unfolding run_task
run_task-Ready old k r name (finish_join j s n) p o h = ground arith
run_task-Ready old k r name nothing p o h = ground arith
run_task-Ready old k r name (delete_room s) p o h = ground arith
run_task-Ready old k r name disconnected p o h = ground arith

run_task-IsIn :
    (old k : ℕ) (r name : String) (p : Panel)
    → is_set r ≡ true
    → Ready old k r name p
    → IsIn r (run_task (finish_join (suc old) r name) p)
unfolding run_task
run_task-IsIn old k r name p i h = ground arith

run_tasks-IsIn :
    (old k : ℕ) (r name : String) (ns : List ℕ) (p : Panel)
    → is_set r ≡ true
    → all (λ n. is_older old (p.tasks n)) ns ≡ true
    → Ready old k r name p
    → IsIn r (run_tasks (ns ++ (k ∷ [])) p)
unfolding run_tasks
run_tasks-IsIn old k r name [] p i o h = rw h.task (run_task-IsIn old k r name p i h)
run_tasks-IsIn old k r name (n ∷ ns) p i o h =
    let (ready, same) = run_task-Ready old k r name (p.tasks n) p (ground arith) h in
    run_tasks-IsIn old k r name ns (run_task (p.tasks n) p) i (rw same (ground arith)) ready

-- The callbacks of a join under way, which all have earlier numbers.
pub older_before :
    (m old : ℕ) (t : Task) (tasks : ℕ → Task) (ns : List ℕ)
    → are_older m old tasks ns ≡ true
    → all (λ n. is_older old (with_task m t tasks n)) ns ≡ true
older_before m old t tasks [] h = refl
older_before m old t tasks (n ∷ ns) h = ground (arith, older_before m old t tasks ns)

-- What a join does before it closes the session.
abbrev pub departing : Panel → Panel
departing p = halt_presence (next_transition true (sound_departure p))

pub departing-frame :
    (p : Panel)
    → ((departing p).session ≡ p.session)
      × ((departing p).tasks ≡ p.tasks)
      × ((departing p).next_task ≡ p.next_task)
      × ((departing p).room_transition_id ≡ suc p.room_transition_id)
      × ((departing p).is_unmounted ≡ p.is_unmounted)
unfolding halt_presence emit
departing-frame p = ground arith

pub joins_elsewhere :
    (r name : String) (how : SwarmClose) (p : Panel)
    → is_in p.active_room r ≡ false
    → handle_join_room r name how p
      ≡ cleanup_connection (finish_join (departing p).room_transition_id r name) how (departing p)
unfolding handle_join_room
joins_elsewhere r name how p i = rw i refl

pub close_again :
    (n : ℕ) (how : SwarmClose) (s : VoiceSession)
    → is_closing s.state ≡ true
    → (closes_at_once how s ≡ false)
      × (close n how s ≡ record s { cleanup_callbacks = s.cleanup_callbacks ++ (n ∷ []) })
unfolding close
close_again n how s c = ground arith

pub finished :
    (number : ℕ) (q : Pending) (s : VoiceSession)
    → s.pending ≡ some q
    → q.number ≡ number
    → (called number s ≡ s.cleanup_callbacks) × (is_idle (finish number s).state ≡ true)
unfolding finish
finished number q s e n = ground arith

-- A panel whose session closes, with the callback of the latest join as the last one.
record Awaits (number old k : ℕ) (r name : String) (ns : List ℕ) (q : Pending) (p : Panel)
    : Type 0 where
  pending : p.session.pending ≡ some q
  numbered : q.number ≡ number
  callbacks : p.session.cleanup_callbacks ≡ ns ++ (k ∷ [])
  older : all (λ n. is_older old (p.tasks n)) ns ≡ true
  transition : p.room_transition_id ≡ suc old
  mounted : p.is_unmounted ≡ false
  task : p.tasks k ≡ finish_join (suc old) r name

Awaits-IsIn :
    (number old k : ℕ) (r name : String) (ns : List ℕ) (q : Pending) (p : Panel)
    → is_set r ≡ true
    → Awaits number old k r name ns q p
    → IsIn r (finish_close number p)
unfolding finish_close
Awaits-IsIn number old k r name ns q p s a =
    let (all_called, i) = finished number q p.session a.pending a.numbered in
    rw (all_called ∙ a.callbacks) (
      run_tasks-IsIn old k r name ns (record p { session = finish number p.session }) s a.older
        (record { transition = a.transition; mounted = a.mounted; idle = i; task = a.task }))

closed-Awaits :
    (number : ℕ) (r name : String) (how : SwarmClose) (q : Pending) (p d : Panel)
    → Agrees p
    → p.is_unmounted ≡ false
    → p.session.pending ≡ some q
    → q.number ≡ number
    → is_closing p.session.state ≡ true
    → (d.session ≡ p.session)
      × (d.tasks ≡ p.tasks)
      × (d.next_task ≡ p.next_task)
      × (d.room_transition_id ≡ suc p.room_transition_id)
      × (d.is_unmounted ≡ p.is_unmounted)
    → (close d.next_task how d.session ≡ record d.session {
      cleanup_callbacks = d.session.cleanup_callbacks ++ (d.next_task ∷ []);
    })
    → Awaits number p.room_transition_id p.next_task r name p.session.cleanup_callbacks q
        (closed (finish_join d.room_transition_id r name) how d)
closed-Awaits number r name how q p d a u e n c f g = ground (
  arith,
  a.older,
  older_before p.next_task p.room_transition_id (finish_join (suc p.room_transition_id) r name)
      p.tasks p.session.cleanup_callbacks,
)

-- While a session closes, asking for another room than the shown one puts the panel into that room
-- as soon as the close finishes, whatever joins and leaves were asked for before: it shows the room,
-- its session is active there, and its presence names it. The panel agrees with its session and is
-- mounted, and the room has a name.
pub last_join_wins :
    (number : ℕ) (r name : String) (how : SwarmClose) (p : Panel) (q : Pending)
    → Agrees p
    → p.is_unmounted ≡ false
    → p.session.pending ≡ some q
    → q.number ≡ number
    → is_in p.active_room r ≡ false
    → is_set r ≡ true
    → IsIn r (finish_close number (handle_join_room r name how p))
last_join_wins number r name how p q a u e n i s =
    let c : is_closing p.session.state ≡ true = ground (arith, a.owns.pending) in
    let f = departing-frame p in
    let (l, g) = close_again (departing p).next_task how (departing p).session (rw f.0 c) in
    rw
      (
        joins_elsewhere r name how p i,
        cleanup_later (finish_join (departing p).room_transition_id r name) how (departing p) l,
      )
      (Awaits-IsIn number p.room_transition_id p.next_task r name p.session.cleanup_callbacks q _ s
        (closed-Awaits number r name how q p (departing p) a u e n c f g))
