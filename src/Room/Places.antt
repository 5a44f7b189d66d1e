-- ===== src/Room/Places.antt =====
-- Where the user is, as a machine of four places: what the panel of
-- webapp/src/components/modals/audio_group_call/audio_group_call.jsx promises of joining, leaving and
-- switching rooms, without its session, its callbacks and its transitions.
pub mod Tasks
pub mod Moves
pub mod Changes
pub mod Refines
pub mod Handlers
pub mod Gone
pub mod Runs
mod Tests
use mattermost_plugin_voices.Base.{
  ℕ, String, Bool, true, false, not, ◌&&◌, Option, none, some, List, [], ◌∷◌, ◌≡◌, ◌⊎◌, eqb, is_set,
  if◌then◌else◌, ◌==◌,
}
use mattermost_plugin_voices.Voice.Session.{is_idle, is_active_state, is_closing}
use mattermost_plugin_voices.Room.Panel.{Panel, Task, finish_join}
use mattermost_plugin_voices.Room.Joining.{PresenceChange}
use mattermost_plugin_voices.Room.Agrees.{room_of}
use mattermost_plugin_voices.Room.Steps.{
  Event, joins, leaves, deletes, creates, presence_changes, unmounts, swarm_finishes,
}

-- Out of every room, in a room, on the way out of one that may still be shown with the room that is
-- wanted next, and a panel that is gone.
pub data Place : Type 0 where
  outside gone : Place
  inside : (room_id : String) → Place
  leaving : (shown wanted : Option String) → Place

abbrev pub at_room : Option String → Place
at_room none = outside
at_room (some r) = inside r

abbrev pub is_room : Option String → String → Bool
is_room none r = false
is_room (some s) r = s == r

-- whether a place shows a room
abbrev pub is_shown : Place → String → Bool
is_shown outside r = false
is_shown gone r = false
is_shown (inside s) r = s == r
is_shown (leaving s w) r = is_room s r

-- A user who asks for a room that is shown stays; else the user is in it at once, or on the way.
abbrev pub Joins : (room_id : String) (a b : Place) → Type 0
Joins r gone b = b ≡ gone
Joins r outside b = b ≡ inside r
Joins r (inside s) b =
    if s == r then b ≡ inside s else (b ≡ inside r) ⊎ (b ≡ leaving (some s) (some r))
Joins r (leaving s w) b = if is_room s r then b ≡ leaving s w else b ≡ leaving s (some r)

-- A user who leaves is outside at once, or on the way, with no room shown or wanted.
abbrev pub Leaves : (a b : Place) → Type 0
Leaves gone b = b ≡ gone
Leaves outside b = b ≡ outside
Leaves (inside s) b = (b ≡ outside) ⊎ (b ≡ leaving none none)
Leaves (leaving s w) b = b ≡ leaving none none

-- The way out ends in the wanted room.
abbrev pub Arrives : (a b : Place) → Type 0
Arrives (leaving s w) b = b ≡ at_room w
Arrives a b = b ≡ a

-- What an event may do to a place.
abbrev pub Allowed : (user_id : String) → Event → (a b : Place) → Type 0
Allowed user_id (joins r name how) a b = Joins r a b
Allowed user_id (leaves how) a b = Leaves a b
Allowed user_id (deletes r how) a b = if is_shown a r then Leaves a b else b ≡ a
Allowed user_id (creates r name none how) a b = b ≡ a
Allowed user_id (creates r name (some rooms) how) a b = Joins r a b
Allowed user_id (presence_changes c how) a b =
    if c.user_id == user_id && is_shown a c.previous_room_id && not (is_shown a c.room_id)
    then Leaves a b
    else b ≡ a
Allowed user_id (unmounts how) a b = b ≡ gone
Allowed user_id (swarm_finishes n) a b = (b ≡ a) ⊎ Arrives a b
Allowed user_id _ a b = b ≡ a

-- The places that a list of events may lead to.
pub data Leads (user_id : String) : List Event → Place → Place → Type 0 where
  stop : {a : Place} → Leads user_id [] a a
  move :
      {e : Event} {es : List Event} {a b c : Place}
      → Allowed user_id e a b
      → Leads user_id es b c
      → Leads user_id (e ∷ es) a c

-- the room of a join that is still wanted
abbrev pub wanted_of : (transition_id : ℕ) → Task → Option String
wanted_of k (finish_join t r name) = if eqb t k && is_set r then some r else none
wanted_of k _ = none

abbrev pub or_next : Option String → Option String → Option String
or_next none w = w
or_next (some r) w = some r

abbrev pub wanted : (transition_id : ℕ) (tasks : ℕ → Task) → List ℕ → Option String
wanted k tasks [] = none
wanted k tasks (n ∷ ns) = or_next (wanted_of k (tasks n)) (wanted k tasks ns)

-- The place of a panel.
unfoldable pub place : Panel → Place
place p =
    if p.is_unmounted
    then gone
    else if is_closing p.session.state
    then leaving (room_of p.active_room)
        (wanted p.room_transition_id p.tasks p.session.cleanup_callbacks)
    else at_room (room_of p.active_room)

-- What a place says of the voice session.
abbrev pub Holds : Place → Panel → Type 0
Holds outside p = is_idle p.session.state ≡ true
Holds gone p = is_active_state p.session.state ≡ false
Holds (inside r) p = (is_active_state p.session.state ≡ true) × (p.session.room_id ≡ some r)
Holds (leaving s w) p = is_closing p.session.state ≡ true
