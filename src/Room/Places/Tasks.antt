-- ===== src/Room/Places/Tasks.antt =====
-- The callbacks of a close, by the room that is wanted:
-- webapp/src/components/modals/audio_group_call/audio_group_call.jsx.
use mattermost_plugin_voices.Base.{
  ℕ, suc, String, true, false, none, some, List, [], ◌∷◌, ◌++◌, ◌≡◌, refl, ◌∙◌, all, arith,
  Option-cases, inl, inr,
}
use mattermost_plugin_voices.Voice.Session
use mattermost_plugin_voices.Voice.Session.{is_idle, is_active_state, is_closing}
use mattermost_plugin_voices.Room.Panel.{
  Panel, Task, finish_join, nothing, delete_room, disconnected,
}
use mattermost_plugin_voices.Room.Joining.{run_task, run_tasks}
use mattermost_plugin_voices.Room.Older.{is_older}
use mattermost_plugin_voices.Room.Agrees.{room_of}
use mattermost_plugin_voices.Room.Places.{wanted_of, or_next, wanted, inside, place}

-- What a callback that enters no room leaves as it was.
pub record Still (p q : Panel) : Type 0 where
  pub session : q.session ≡ p.session
  pub active_room : q.active_room ≡ p.active_room
  pub mounted : q.is_unmounted ≡ p.is_unmounted
  pub tasks : q.tasks ≡ p.tasks
  pub transition : q.room_transition_id ≡ p.room_transition_id

Still-trans : (p q r : Panel) → Still p q → Still q r → Still p r
Still-trans p q r a b = ground arith

run_task-Still_active :
    (t : Task) (p : Panel) → is_active_state p.session.state ≡ true → Still p (run_task t p)
unfolding run_task Session.start
run_task-Still_active (finish_join k r name) p a = ground arith
run_task-Still_active nothing p a = ground arith
run_task-Still_active (delete_room r) p a = ground arith
run_task-Still_active disconnected p a = ground arith

run_tasks-Still_active :
    (ns : List ℕ) (p : Panel) → is_active_state p.session.state ≡ true → Still p (run_tasks ns p)
unfolding run_tasks
run_tasks-Still_active [] p a = record {
  session = refl;
  active_room = refl;
  mounted = refl;
  tasks = refl;
  transition = refl;
}
run_tasks-Still_active (n ∷ ns) p a =
    let s = run_task-Still_active (p.tasks n) p a in
    Still-trans p (run_task (p.tasks n) p) _ s
      (run_tasks-Still_active ns (run_task (p.tasks n) p) (rw s.session a))

pub run_task-Still :
    (t : Task) (p : Panel) → wanted_of p.room_transition_id t ≡ none → Still p (run_task t p)
unfolding run_task Session.start
run_task-Still (finish_join k r name) p w = ground arith
run_task-Still nothing p w = ground arith
run_task-Still (delete_room r) p w = ground arith
run_task-Still disconnected p w = ground arith

-- A panel that has just entered a room.
pub record Entered (r : String) (p : Panel) : Type 0 where
  pub active : is_active_state p.session.state ≡ true
  pub shown : room_of p.active_room ≡ some r
  pub mounted : p.is_unmounted ≡ false

pub run_task-Entered :
    (r : String) (t : Task) (p : Panel)
    → p.is_unmounted ≡ false
    → is_idle p.session.state ≡ true
    → wanted_of p.room_transition_id t ≡ some r
    → Entered r (run_task t p)
unfolding run_task Session.start
run_task-Entered r (finish_join k s name) p u i w = ground arith
run_task-Entered r nothing p u i w = ground arith
run_task-Entered r (delete_room s) p u i w = ground arith
run_task-Entered r disconnected p u i w = ground arith

Still-Entered : (r : String) (p q : Panel) → Entered r p → Still p q → Entered r q
Still-Entered r p q e s = ground arith

-- A panel whose session is idle is in the wanted room after the callbacks, or as it was.
pub run_tasks-some :
    (r : String) (ns : List ℕ) (p : Panel)
    → p.is_unmounted ≡ false
    → is_idle p.session.state ≡ true
    → wanted p.room_transition_id p.tasks ns ≡ some r
    → Entered r (run_tasks ns p)
unfolding run_tasks
run_tasks-some r [] p u i w = ground arith
run_tasks-some r (n ∷ ns) p u i w =
    elim (Option-cases (wanted_of p.room_transition_id (p.tasks n))) [
      | inl e ↦
          let s = run_task-Still (p.tasks n) p e in
          run_tasks-some r ns (run_task (p.tasks n) p) (s.mounted ∙ u) (rw s.session i)
            (rw (s.transition, s.tasks) (ground (arith, e, w)))
      | inr (q, e) ↦
          let h = run_task-Entered r (p.tasks n) p u i (ground (arith, e, w)) in
          Still-Entered r (run_task (p.tasks n) p) _ h
            (run_tasks-Still_active ns (run_task (p.tasks n) p) h.active)
    ]

pub run_tasks-none :
    (ns : List ℕ) (p : Panel)
    → wanted p.room_transition_id p.tasks ns ≡ none
    → Still p (run_tasks ns p)
unfolding run_tasks
run_tasks-none [] p w = record {
  session = refl;
  active_room = refl;
  mounted = refl;
  tasks = refl;
  transition = refl;
}
run_tasks-none (n ∷ ns) p w = elim (Option-cases (wanted_of p.room_transition_id (p.tasks n))) [
  | inl e ↦
      let s = run_task-Still (p.tasks n) p e in
      Still-trans p (run_task (p.tasks n) p) _ s (
        run_tasks-none ns (run_task (p.tasks n) p)
          (rw (s.transition, s.tasks) (ground (arith, e, w))))
  | inr (q, e) ↦ ground (arith, e, w)
]

pub Entered-place : (r : String) (p : Panel) → Entered r p → place p ≡ inside r
unfolding place
Entered-place r p e = ground arith

wanted_of-older : (old : ℕ) (t : Task) → is_older old t ≡ true → wanted_of (suc old) t ≡ none
wanted_of-older old (finish_join k r name) h = ground arith
wanted_of-older old nothing h = refl
wanted_of-older old (delete_room r) h = refl
wanted_of-older old disconnected h = refl

-- No join of an earlier transition is wanted.
pub wanted-older :
    (old : ℕ) (tasks : ℕ → Task) (ns : List ℕ)
    → all (λ n. is_older old (tasks n)) ns ≡ true
    → wanted (suc old) tasks ns ≡ none
wanted-older old tasks [] h = refl
wanted-older old tasks (n ∷ ns) h =
    ground (arith, wanted_of-older old (tasks n), wanted-older old tasks ns)

pub wanted-append :
    (k : ℕ) (tasks : ℕ → Task) (ns : List ℕ) (m : ℕ)
    → wanted k tasks (ns ++ (m ∷ [])) ≡ or_next (wanted k tasks ns) (wanted_of k (tasks m))
wanted-append k tasks [] m = ground arith
wanted-append k tasks (n ∷ ns) m = ground (arith, wanted-append k tasks ns m)
