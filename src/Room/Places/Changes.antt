-- ===== src/Room/Places/Changes.antt =====
-- Joining and leaving of webapp/src/components/modals/audio_group_call/audio_group_call.jsx against
-- Room/Places.antt.
use mattermost_plugin_voices.Base.{
  ℕ, String, Bool, true, false, Option, none, some, ◌≡◌, refl, sym, ap, ◌∙◌, ◌⊎◌, inl, inr, is_set,
  arith, Option-cases, Bool-cases, if◌then◌else◌, ◌==◌,
}
use mattermost_plugin_voices.Voice.Session.{SwarmClose, is_closing}
use mattermost_plugin_voices.Room.Panel.{
  Panel, ActiveRoom, Task, finish_join, disconnected, reset_active_room_state, is_in, halt_presence,
  clear_presence, emit,
}
use mattermost_plugin_voices.Room.Joining.{
  closes_at_once, cleanup_connection, handle_join_room, leave_room_internal, disconnect_local_room,
  next_transition, sound_departure,
}
use mattermost_plugin_voices.Room.Agrees.{Agrees, room_of}
use mattermost_plugin_voices.Room.Agrees.Closing.{is_passive}
use mattermost_plugin_voices.Room.Switching.{departing, joins_elsewhere}
use mattermost_plugin_voices.Room.Places.{
  wanted, Place, outside, gone, inside, leaving, is_room, is_shown, place, Joins, Leaves,
}
use mattermost_plugin_voices.Room.Places.Moves.{
  Departs, join_at_once, join_later, leave_at_once, leave_later,
}

-- The place of a mounted panel, with what its session does.
pub record IsOutside (p : Panel) : Type 0 where
  pub here : place p ≡ outside
  pub shown : p.active_room ≡ none
  pub ends : (how : SwarmClose) → closes_at_once how p.session ≡ true

pub record IsInside (s : String) (p : Panel) : Type 0 where
  pub here : place p ≡ inside s
  pub shown : room_of p.active_room ≡ some s

pub record IsLeaving (p : Panel) : Type 0 where
  pub here :
      place p
      ≡ leaving
          (room_of p.active_room)
          (wanted p.room_transition_id p.tasks p.session.cleanup_callbacks)
  pub closing : is_closing p.session.state ≡ true
  pub waits : (how : SwarmClose) → closes_at_once how p.session ≡ false

place-cases :
    (p : Panel)
    → Agrees p
    → p.is_unmounted ≡ false
    → IsOutside p ⊎ ((s : String) × IsInside s p) ⊎ IsLeaving p
unfolding place
place-cases p a u = elim (Bool-cases (is_closing p.session.state)) [
  | inl c ↦ inr (inr (record { here = ground arith; closing = c; waits = λ how. ground arith }))
  | inr c ↦ elim (Option-cases p.active_room) [
    | inl n ↦
        inl
          (record { here = ground arith; shown = n; ends = λ how. ground (arith, a.owns, a.shown) })
    | inr (r, e) ↦ inr (inl (r.room_id, record { here = ground arith; shown = rw e refl }))
  ]
]

is_in-room : (a : Option ActiveRoom) (r : String) → is_in a r ≡ is_room (room_of a) r
is_in-room none r = refl
is_in-room (some a) r = refl

pub is_in-shown :
    (r : String) (p : Panel)
    → Agrees p
    → p.is_unmounted ≡ false
    → is_in p.active_room r ≡ is_shown (place p) r
is_in-shown r p a u = elim (place-cases p a u) [
  | inl o ↦ rw (o.here, o.shown) refl
  | inr (inl (s, i)) ↦ rw (is_in-room p.active_room r, i.here, i.shown) refl
  | inr (inr l) ↦ rw (is_in-room p.active_room r, l.here) refl
]

departing-Departs : (p : Panel) → Departs p (departing p)
unfolding halt_presence emit
departing-Departs p = ground arith

stays_in :
    (r name : String) (how : SwarmClose) (p : Panel)
    → is_in p.active_room r ≡ true
    → handle_join_room r name how p ≡ p
unfolding handle_join_room
stays_in r name how p i = rw i refl

join-goes :
    (r name : String) (how : SwarmClose) (p : Panel)
    → Agrees p
    → p.is_unmounted ≡ false
    → is_set r ≡ true
    → is_in p.active_room r ≡ false
    → place (handle_join_room r name how p) ≡ (
        if closes_at_once how p.session then inside r else leaving (room_of p.active_room) (some r))
join-goes r name how p a u s f =
    let d = departing-Departs p in
    let e =
      ap place (joins_elsewhere r name how p f)
      ∙ ap (λ (k : ℕ). place (cleanup_connection (finish_join k r name) how (departing p)))
          d.transition in
    elim (Bool-cases (closes_at_once how p.session)) [
      | inl t ↦ e ∙ join_at_once r name how p (departing p) a u s d t ∙ rw t refl
      | inr l ↦ e ∙ join_later r name how p (departing p) a u s d l ∙ rw l refl
    ]

-- what one of two places may be, by how the session closes
if-cases : (b : Bool) (x y : Place) → ((if b then x else y) ≡ x) ⊎ ((if b then x else y) ≡ y)
if-cases true x y = inl refl
if-cases false x y = inr refl

pub join-Joins :
    (r name : String) (how : SwarmClose) (p : Panel)
    → Agrees p
    → p.is_unmounted ≡ false
    → is_set r ≡ true
    → Joins r (place p) (place (handle_join_room r name how p))
join-Joins r name how p a u s = elim (Bool-cases (is_in p.active_room r)) [
  | inl t ↦
      let shown : is_shown (place p) r ≡ true = sym (is_in-shown r p a u) ∙ t in
      rw (stays_in r name how p t) (stays r (place p) shown)
  | inr f ↦
      let g = join-goes r name how p a u s f in
      elim (place-cases p a u) [
        | inl o ↦ rw (o.here, g, o.ends how) refl
        | inr (inl (q, i)) ↦
            rw (i.here, g, i.shown)
              (elsewhere r q (closes_at_once how p.session)
                (sym (ap (λ x. is_shown x r) i.here) ∙ sym (is_in-shown r p a u) ∙ f))
        | inr (inr l) ↦ rw (l.here, g, l.waits how, sym (is_in-room p.active_room r) ∙ f) refl
      ]
]
  where
    stays : (r : String) (x : Place) → is_shown x r ≡ true → Joins r x x
    stays r outside e = ground arith
    stays r gone e = refl
    stays r (inside q) e = rw e refl
    stays r (leaving q w) e = rw e refl

    elsewhere :
        (r q : String) (b : Bool)
        → (q == r) ≡ false
        → Joins r (inside q) (if b then inside r else leaving (some q) (some r))
    elsewhere r q b e = rw e (if-cases b (inside r) (leaving (some q) (some r)))

leave-goes :
    (t : Task) (how : SwarmClose) (p d : Panel)
    → Agrees p
    → p.is_unmounted ≡ false
    → is_passive t ≡ true
    → Departs p d
    → place (reset_active_room_state (cleanup_connection t how d))
      ≡ (if closes_at_once how p.session then outside else leaving none none)
leave-goes t how p d a u h e = elim (Bool-cases (closes_at_once how p.session)) [
  | inl l ↦ rw l (leave_at_once t how p d a u h e l)
  | inr l ↦ rw l (leave_later t how p d a u h e l)
]

leave-Leaves :
    (t : Task) (how : SwarmClose) (p d : Panel)
    → Agrees p
    → p.is_unmounted ≡ false
    → is_passive t ≡ true
    → Departs p d
    → Leaves (place p) (place (reset_active_room_state (cleanup_connection t how d)))
leave-Leaves t how p d a u h e =
    let g = leave-goes t how p d a u h e in
    elim (place-cases p a u) [
      | inl o ↦ rw (o.here, g, o.ends how) refl
      | inr (inl (q, i)) ↦
          rw (i.here, g) (if-cases (closes_at_once how p.session) outside (leaving none none))
      | inr (inr l) ↦ rw (l.here, g, l.waits how) refl
    ]

going-Departs : (p : Panel) → Departs p (clear_presence (sound_departure (next_transition false p)))
unfolding clear_presence emit
going-Departs p = ground arith

pub room-Leaves :
    (t : Task) (how : SwarmClose) (p : Panel)
    → Agrees p
    → p.is_unmounted ≡ false
    → is_passive t ≡ true
    → Leaves (place p) (place (leave_room_internal t how p))
unfolding leave_room_internal
room-Leaves t how p a u h = leave-Leaves t how p _ a u h (going-Departs p)

elsewhere-Departs : (p : Panel) → Departs p (halt_presence (next_transition true p))
unfolding halt_presence
elsewhere-Departs p = ground arith

pub disconnect-Leaves :
    (how : SwarmClose) (p : Panel)
    → Agrees p
    → p.is_unmounted ≡ false
    → Leaves (place p) (place (disconnect_local_room how p))
unfolding disconnect_local_room
disconnect-Leaves how p a u = leave-Leaves disconnected how p _ a u refl (elsewhere-Departs p)
