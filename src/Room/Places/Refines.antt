-- ===== src/Room/Places/Refines.antt =====
-- The events of Room/Steps.antt, of
-- webapp/src/components/modals/audio_group_call/audio_group_call.jsx, against the places of
-- Room/Places.antt.
use mattermost_plugin_voices.Base.{
  ℕ, true, false, none, List, [], ◌∷◌, ◌≡◌, refl, ap, ◌∙◌, ◌⊎◌, inl, inr, is_some, arith,
  Option-cases,
}
use mattermost_plugin_voices.Voice.Session.{VoiceSession, is_idle, is_closing, finish}
use mattermost_plugin_voices.Voice.Ownership.{Owns}
use mattermost_plugin_voices.Room.Panel.{
  Panel, Task, finish_join, nothing, delete_room, disconnected,
}
use mattermost_plugin_voices.Room.Joining.{run_tasks, finish_close, called}
use mattermost_plugin_voices.Room.Agrees.{Agrees, room_of, awaits, is_current}
use mattermost_plugin_voices.Room.Agreement.Frames.{Stays}
use mattermost_plugin_voices.Room.Places.{
  wanted_of, wanted, outside, leaving, at_room, place, Arrives,
}
use mattermost_plugin_voices.Room.Places.Tasks.{run_tasks-some, run_tasks-none, Entered-place}

awaits-wanted :
    (k : ℕ) (tasks : ℕ → Task) (ns : List ℕ) → awaits k tasks ns ≡ is_some (wanted k tasks ns)
awaits-wanted k tasks [] = refl
awaits-wanted k tasks (n ∷ ns) = ground (arith, current_of k (tasks n), awaits-wanted k tasks ns)
  where
    current_of : (k : ℕ) (t : Task) → is_current k t ≡ is_some (wanted_of k t)
    current_of k (finish_join j r name) = ground arith
    current_of k nothing = refl
    current_of k (delete_room r) = refl
    current_of k disconnected = refl

finishes :
    (number : ℕ) (s : VoiceSession)
    → Owns s
    → ((is_closing s.state ≡ true)
        × (is_idle (finish number s).state ≡ true)
        × (called number s ≡ s.cleanup_callbacks))
      ⊎ ((finish number s ≡ s) × (called number s ≡ []))
unfolding finish
finishes number s o = ground arith

leaving-place :
    (p : Panel)
    → p.is_unmounted ≡ false
    → is_closing p.session.state ≡ true
    → place p
      ≡ leaving
          (room_of p.active_room)
          (wanted p.room_transition_id p.tasks p.session.cleanup_callbacks)
unfolding place
leaving-place p u c = ground arith

-- With no room wanted the panel shows none while its session closes.
hidden-place :
    (p q : Panel)
    → Agrees p
    → p.is_unmounted ≡ false
    → is_closing p.session.state ≡ true
    → wanted p.room_transition_id p.tasks p.session.cleanup_callbacks ≡ none
    → is_idle q.session.state ≡ true
    → q.active_room ≡ p.active_room
    → q.is_unmounted ≡ p.is_unmounted
    → place q ≡ outside
unfolding place
hidden-place p q a u c w i r m =
    ground (arith, a.moving, awaits-wanted p.room_transition_id p.tasks p.session.cleanup_callbacks)

closed-Arrives :
    (number : ℕ) (p : Panel)
    → Agrees p
    → p.is_unmounted ≡ false
    → is_closing p.session.state ≡ true
    → is_idle (finish number p.session).state ≡ true
    → place (run_tasks p.session.cleanup_callbacks (record p { session = finish number p.session }))
      ≡ at_room (wanted p.room_transition_id p.tasks p.session.cleanup_callbacks)
closed-Arrives number p a u c i =
    let q = record p { session = finish number p.session } in
    elim (Option-cases (wanted p.room_transition_id p.tasks p.session.cleanup_callbacks)) [
      | inl e ↦
          let s = run_tasks-none p.session.cleanup_callbacks q e in
          hidden-place p _ a u c e (ap (λ x. is_idle x.state) s.session ∙ i) s.active_room s.mounted
          ∙ rw e refl
      | inr (r, e) ↦
          Entered-place r _ (run_tasks-some r p.session.cleanup_callbacks q u i e) ∙ rw e refl
    ]

pub finish-Arrives :
    (number : ℕ) (p : Panel)
    → Agrees p
    → p.is_unmounted ≡ false
    → (place (finish_close number p) ≡ place p) ⊎ Arrives (place p) (place (finish_close number p))
unfolding finish_close run_tasks
finish-Arrives number p a u = elim (finishes number p.session a.owns) [
  | inl (c, i, e) ↦ inr (
      rw (leaving-place p u c) (
        ap (λ ns. place (run_tasks ns (record p { session = finish number p.session }))) e
        ∙ closed-Arrives number p a u c i))
  | inr (same, none_called) ↦ inl (rw (none_called, same) refl)
]

pub Stays-place : (p q : Panel) → Stays p q → place q ≡ place p
unfolding place
Stays-place p q s = ground arith
