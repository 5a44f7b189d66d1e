-- ===== src/Room/Agrees.antt =====
-- The room that the panel shows, the room of its voice session and the room that its presence names:
-- webapp/src/components/modals/audio_group_call/audio_group_call.jsx.
pub mod Closing
use mattermost_plugin_voices.Base.{
  ℕ, suc, String, Bool, true, false, not, ◌&&◌, ◌||◌, Option, none, some, List, [], ◌∷◌, ◌++◌, ◌≡◌,
  refl, sym, ap, ◌∙◌, any, any-append, eqb, is_some, is_set, arith, Bool-cases, Option-cases, ◌⊎◌,
  inl, inr,
}
use mattermost_plugin_voices.Voice.Session
use mattermost_plugin_voices.Voice.Session.{
  VoiceSession, SwarmClose, at_once, later, throws, is_idle, is_active_state, is_closing, close,
  finish,
}
use mattermost_plugin_voices.Voice.Ownership.{Owns, start-Owns, close-Owns, finish-Owns}
use mattermost_plugin_voices.Room.Controller.{Heartbeat}
use mattermost_plugin_voices.Room.Panel.{
  Panel, ActiveRoom, Task, finish_join, nothing, delete_room, disconnected, reset_active_room_state,
}
use mattermost_plugin_voices.Room.Older.{are_older}
use mattermost_plugin_voices.Room.Joining.{
  enter_room, run_task, run_tasks, called, finish_close, closes_at_once, with_task,
  cleanup_connection,
}

abbrev pub room_of : Option ActiveRoom → Option String
room_of none = none
room_of (some a) = some a.room_id

abbrev pub room_of_heartbeat : Option Heartbeat → Option String
room_of_heartbeat none = none
room_of_heartbeat (some h) = some h.room_id

-- a join that is still wanted
abbrev pub is_current : (transition_id : ℕ) → Task → Bool
is_current transition_id (finish_join t room_id name) = eqb t transition_id && is_set room_id
is_current transition_id _ = false

abbrev pub awaits : (transition_id : ℕ) (tasks : ℕ → Task) → List ℕ → Bool
awaits transition_id tasks callbacks = any (λ n. is_current transition_id (tasks n)) callbacks

-- The callbacks that wait are older than the panel.
abbrev pub waits_older : Panel → Bool
waits_older p = are_older p.next_task p.room_transition_id p.tasks p.session.cleanup_callbacks

-- While the panel is mounted, an active session is that of the room that it shows; with an idle
-- session it shows none; while a session closes, it shows a room only on the way to another. A
-- presence that is repeated names the room of the session.
pub record Agrees (p : Panel) : Type 0 where
  pub owns : Owns p.session
  pub older : waits_older p ≡ true
  pub shown :
      p.is_unmounted ≡ false
      → is_active_state p.session.state ≡ true
      → p.session.room_id ≡ room_of p.active_room
  pub hidden :
      p.is_unmounted ≡ false → is_idle p.session.state ≡ true → is_some p.active_room ≡ false
  pub moving :
      p.is_unmounted ≡ false
      → is_closing p.session.state ≡ true
      → (not (is_some p.active_room)
          || awaits p.room_transition_id p.tasks p.session.cleanup_callbacks)
        ≡ true
  pub beats :
      is_some p.controller.presence_heartbeat ≡ true
      → p.session.room_id ≡ room_of_heartbeat p.controller.presence_heartbeat
  pub gone :
      p.is_unmounted ≡ true
      → (is_some p.controller.presence_heartbeat ≡ false)
        × (is_active_state p.session.state ≡ false)

-- A panel between the callbacks of a close: the session no longer closes, and an idle one with a
-- room that is still shown waits for a join among the callbacks that are left.
pub record Settles (callbacks : List ℕ) (p : Panel) : Type 0 where
  pub owns : Owns p.session
  pub over : is_closing p.session.state ≡ false
  pub shown :
      p.is_unmounted ≡ false
      → is_active_state p.session.state ≡ true
      → p.session.room_id ≡ room_of p.active_room
  pub awaited :
      p.is_unmounted ≡ false
      → is_idle p.session.state ≡ true
      → (not (is_some p.active_room) || awaits p.room_transition_id p.tasks callbacks) ≡ true
  pub beats :
      is_some p.controller.presence_heartbeat ≡ true
      → p.session.room_id ≡ room_of_heartbeat p.controller.presence_heartbeat
  pub gone :
      p.is_unmounted ≡ true
      → (is_some p.controller.presence_heartbeat ≡ false)
        × (is_active_state p.session.state ≡ false)

pub Settles-Agrees : (p : Panel) → Settles [] p → Agrees p
Settles-Agrees p s = ground arith

-- What a session is after `start`.
start-cases :
    (r : String) (s : VoiceSession)
    → is_closing s.state ≡ false
    → let (t, started) = Session.start r s in
      (started ≡ (is_set r && is_idle s.state))
      × (started ≡ false → t ≡ s)
      × (started ≡ true → (is_active_state t.state ≡ true) × (t.room_id ≡ some r))
unfolding Session.start
start-cases r s c = ground arith

enter-refused :
    (r name : String) (p : Panel) → (Session.start r p.session).1 ≡ false → enter_room r name p ≡ p
unfolding enter_room
enter-refused r name p e = ground arith

enter-started :
    (r name : String) (ms ns : List ℕ) (p : Panel)
    → p.is_unmounted ≡ false
    → Settles ms p
    → (Session.start r p.session).1 ≡ true
    → Settles ns (enter_room r name p)
unfolding enter_room Session.start
enter-started r name ms ns p u s e = ground (arith, start-Owns r p.session s.owns)

-- A join that cannot start, since the session is not idle or the room has no name.
enter-refused-Settles :
    (n k : ℕ) (r name : String) (ns : List ℕ) (p : Panel)
    → p.tasks n ≡ finish_join k r name
    → Settles (n ∷ ns) p
    → (Session.start r p.session).1 ≡ false
    → Settles ns p
enter-refused-Settles n k r name ns p e s f = ground (arith, start-cases r p.session s.over)

enter-Settles :
    (n k : ℕ) (r name : String) (ns : List ℕ) (p : Panel)
    → p.tasks n ≡ finish_join k r name
    → p.is_unmounted ≡ false
    → Settles (n ∷ ns) p
    → Settles ns (enter_room r name p)
enter-Settles n k r name ns p e u s = elim (Bool-cases (Session.start r p.session).1) [
  | inl t ↦ enter-started r name (n ∷ ns) ns p u s t
  | inr f ↦ rw (enter-refused r name p f) (enter-refused-Settles n k r name ns p e s f)
]

Settles-no_pending :
    (ns : List ℕ) (p : Panel) → Settles ns p → Settles ns (record p { connect_pending = false })
Settles-no_pending ns p s = ground arith

stale-Settles :
    (n k : ℕ) (r name : String) (ns : List ℕ) (p : Panel)
    → p.tasks n ≡ finish_join k r name
    → (eqb k p.room_transition_id && not p.is_unmounted) ≡ false
    → Settles (n ∷ ns) p
    → Settles ns p
stale-Settles n k r name ns p e f s = ground arith

run_task_stale :
    (k : ℕ) (r name : String) (p : Panel)
    → eqb k p.room_transition_id ≡ false
    → run_task (finish_join k r name) p ≡ p
unfolding run_task
run_task_stale k r name p f = ground arith

run_task_gone :
    (k : ℕ) (r name : String) (p : Panel)
    → eqb k p.room_transition_id ≡ true
    → p.is_unmounted ≡ true
    → run_task (finish_join k r name) p ≡ record p { connect_pending = false }
unfolding run_task
run_task_gone k r name p t u = ground arith

run_task_current :
    (k : ℕ) (r name : String) (p : Panel)
    → eqb k p.room_transition_id ≡ true
    → p.is_unmounted ≡ false
    → run_task (finish_join k r name) p ≡ enter_room r name (record p { connect_pending = false })
unfolding run_task
run_task_current k r name p t u = ground arith

join-Settles :
    (n k : ℕ) (r name : String) (ns : List ℕ) (p : Panel)
    → p.tasks n ≡ finish_join k r name
    → Settles (n ∷ ns) p
    → Settles ns (run_task (finish_join k r name) p)
join-Settles n k r name ns p e s = elim (Bool-cases (eqb k p.room_transition_id)) [
  | inr f ↦ rw (run_task_stale k r name p f) (stale-Settles n k r name ns p e (ground arith) s)
  | inl t ↦ elim (Bool-cases p.is_unmounted) [
    | inl u ↦
        rw (run_task_gone k r name p t u)
          (Settles-no_pending ns p (stale-Settles n k r name ns p e (ground arith) s))
    | inr u ↦ rw (run_task_current k r name p t u) (
        enter-Settles n k r name ns (record p { connect_pending = false }) e u
          (Settles-no_pending (n ∷ ns) p s))
  ]
]

pub Settles-run_task :
    (n : ℕ) (ns : List ℕ) (t : Task) (p : Panel)
    → p.tasks n ≡ t
    → Settles (n ∷ ns) p
    → Settles ns (run_task t p)
unfolding run_task
Settles-run_task n ns (finish_join k r name) p e s = join-Settles n k r name ns p e s
Settles-run_task n ns nothing p e s = ground arith
Settles-run_task n ns (delete_room r) p e s = ground arith
Settles-run_task n ns disconnected p e s = ground arith

pub Settles-run_tasks : (ns : List ℕ) (p : Panel) → Settles ns p → Agrees (run_tasks ns p)
unfolding run_tasks
Settles-run_tasks [] p s = Settles-Agrees p s
Settles-run_tasks (n ∷ ns) p s =
    Settles-run_tasks ns (run_task (p.tasks n) p) (Settles-run_task n ns (p.tasks n) p refl s)

finished-Settles :
    (number : ℕ) (p : Panel)
    → Agrees p
    → is_closing p.session.state ≡ true
    → is_idle (finish number p.session).state ≡ true
    → Settles (called number p.session) (record p { session = finish number p.session })
unfolding finish
finished-Settles number p a c i = ground (arith, finish-Owns number p.session a.owns)

unfinished :
    (number : ℕ) (s : VoiceSession)
    → Owns s
    → ((is_closing s.state ≡ true) × (is_idle (finish number s).state ≡ true))
      ⊎ ((finish number s ≡ s) × (called number s ≡ []))
unfolding finish
unfinished number s o = ground arith

pub finish_close-Agrees : (number : ℕ) (p : Panel) → Agrees p → Agrees (finish_close number p)
unfolding finish_close
finish_close-Agrees number p a = elim (unfinished number p.session a.owns) [
  | inl (c, i) ↦ Settles-run_tasks _ _ (finished-Settles number p a c i)
  | inr (same, none_called) ↦ rw (same, none_called) a
]
