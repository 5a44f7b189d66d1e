-- ===== src/Room/Places/Moves.antt =====
-- Joining, leaving and the end of a close, by the places of Room/Places.antt:
-- webapp/src/components/modals/audio_group_call/audio_group_call.jsx.
use mattermost_plugin_voices.Base.{
  ℕ, suc, String, true, false, none, some, [], ◌∷◌, ◌++◌, ◌≡◌, refl, ◌∙◌, inl, inr, is_set, arith,
}
use mattermost_plugin_voices.Voice.Session.{SwarmClose, is_idle}
use mattermost_plugin_voices.Room.Panel.{
  Panel, Task, finish_join, nothing, delete_room, disconnected, reset_active_room_state,
}
use mattermost_plugin_voices.Room.Joining.{closes_at_once, with_task, cleanup_connection}
use mattermost_plugin_voices.Room.Agrees.{Agrees, room_of}
use mattermost_plugin_voices.Room.Agrees.Closing.{
  closed, close-outcome, cleanup_at_once, cleanup_later, with_task-here, is_passive,
}
use mattermost_plugin_voices.Room.Switching.{older_before}
use mattermost_plugin_voices.Room.Places.{wanted_of, wanted, outside, inside, leaving, place}
use mattermost_plugin_voices.Room.Places.Tasks.{
  run_task-Still, run_task-Entered, Entered-place, wanted-older, wanted-append,
}

-- A panel that is about to close its session for a panel p: a transition later.
pub record Departs (p d : Panel) : Type 0 where
  pub session : d.session ≡ p.session
  pub tasks : d.tasks ≡ p.tasks
  pub next_task : d.next_task ≡ p.next_task
  pub transition : d.room_transition_id ≡ suc p.room_transition_id
  pub mounted : d.is_unmounted ≡ p.is_unmounted
  pub active_room : d.active_room ≡ p.active_room

-- What is wanted while the session closes is what the new callback wants.
wanted-closed :
    (t : Task) (how : SwarmClose) (p d : Panel)
    → Agrees p
    → Departs p d
    → wanted
        (suc p.room_transition_id)
        (with_task p.next_task t p.tasks)
        (p.session.cleanup_callbacks ++ (p.next_task ∷ []))
      ≡ wanted_of (suc p.room_transition_id) t
wanted-closed t how p d a e =
    wanted-append (suc p.room_transition_id) (with_task p.next_task t p.tasks)
      p.session.cleanup_callbacks p.next_task
    ∙ rw
        (
          wanted-older p.room_transition_id (with_task p.next_task t p.tasks)
              p.session.cleanup_callbacks
              (older_before p.next_task p.room_transition_id t p.tasks p.session.cleanup_callbacks
                a.older),
          with_task-here p.next_task t p.tasks,
        )
        refl

-- The close of the session under way.
closed-place :
    (t : Task) (how : SwarmClose) (p d : Panel)
    → Agrees p
    → p.is_unmounted ≡ false
    → Departs p d
    → closes_at_once how p.session ≡ false
    → place (closed t how d)
      ≡ leaving (room_of p.active_room) (wanted_of (suc p.room_transition_id) t)
unfolding place
closed-place t how p d a u e l = elim (close-outcome p.next_task how p.session a.owns) [
  | inl (at, i) ↦ ground (arith, at, l)
  | inr (at, c, k) ↦ ground (arith, at, c, k, wanted-closed t how p d a e)
]

wanted_of-new :
    (k : ℕ) (r name : String) → is_set r ≡ true → wanted_of k (finish_join k r name) ≡ some r
wanted_of-new k r name s = ground arith

wanted_of-passive : (k : ℕ) (t : Task) → is_passive t ≡ true → wanted_of k t ≡ none
wanted_of-passive k (finish_join j r name) h = ground arith
wanted_of-passive k nothing h = refl
wanted_of-passive k (delete_room r) h = refl
wanted_of-passive k disconnected h = refl

pub join_at_once :
    (r name : String) (how : SwarmClose) (p d : Panel)
    → Agrees p
    → p.is_unmounted ≡ false
    → is_set r ≡ true
    → Departs p d
    → closes_at_once how p.session ≡ true
    → place (cleanup_connection (finish_join (suc p.room_transition_id) r name) how d) ≡ inside r
join_at_once r name how p d a u s e l =
    let t = finish_join (suc p.room_transition_id) r name in
    elim (close-outcome p.next_task how p.session a.owns) [
      | inl (at, i) ↦ rw (cleanup_at_once t how d (rw e.session l)) (
          Entered-place r _ (
            run_task-Entered r t (closed t how d) (e.mounted ∙ u) (rw (e.session, e.next_task) i)
              (rw e.transition (wanted_of-new (suc p.room_transition_id) r name s))))
      | inr (at, c, k) ↦ ground (arith, at, l)
    ]

pub join_later :
    (r name : String) (how : SwarmClose) (p d : Panel)
    → Agrees p
    → p.is_unmounted ≡ false
    → is_set r ≡ true
    → Departs p d
    → closes_at_once how p.session ≡ false
    → place (cleanup_connection (finish_join (suc p.room_transition_id) r name) how d)
      ≡ leaving (room_of p.active_room) (some r)
join_later r name how p d a u s e l =
    let t = finish_join (suc p.room_transition_id) r name in
    rw (cleanup_later t how d (rw e.session l))
      (closed-place t how p d a u e l ∙ rw (wanted_of-new (suc p.room_transition_id) r name s) refl)

pub leave_at_once :
    (t : Task) (how : SwarmClose) (p d : Panel)
    → Agrees p
    → p.is_unmounted ≡ false
    → is_passive t ≡ true
    → Departs p d
    → closes_at_once how p.session ≡ true
    → place (reset_active_room_state (cleanup_connection t how d)) ≡ outside
unfolding place reset_active_room_state
leave_at_once t how p d a u h e l = elim (close-outcome p.next_task how p.session a.owns) [
  | inl (at, i) ↦
      let s = run_task-Still t (closed t how d) (wanted_of-passive d.room_transition_id t h) in
      let i2 : is_idle (closed t how d).session.state ≡ true = rw (e.session, e.next_task) i in
      rw (cleanup_at_once t how d (rw e.session l)) (ground (arith, s, i2, e.mounted, u))
  | inr (at, c, k) ↦ ground (arith, at, l)
]

pub leave_later :
    (t : Task) (how : SwarmClose) (p d : Panel)
    → Agrees p
    → p.is_unmounted ≡ false
    → is_passive t ≡ true
    → Departs p d
    → closes_at_once how p.session ≡ false
    → place (reset_active_room_state (cleanup_connection t how d)) ≡ leaving none none
unfolding place reset_active_room_state
leave_later t how p d a u h e l = elim (close-outcome p.next_task how p.session a.owns) [
  | inl (at, i) ↦ ground (arith, at, l)
  | inr (at, c, k) ↦ rw (cleanup_later t how d (rw e.session l)) (
      ground (
        arith,
        at,
        c,
        k,
        e,
        u,
        wanted-closed t how p d a e,
        wanted_of-passive (suc p.room_transition_id) t h,
      ))
]
