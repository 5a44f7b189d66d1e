-- ===== src/Sidebar/Rows.antt =====
-- The rows of the list of voice rooms:
-- webapp/src/components/modals/audio_group_call/audio_group_call.jsx.
use mathlib.Core.List.{Option-to_list, append-nil}
use mattermost_plugin_voices.Base.{
  String, Bool, true, false, not, Option, none, some, List, [], ◌∷◌, ◌++◌, ◌≡◌, refl, sym, ap, ◌∙◌,
  any, all, map, present, keep, contains, eq_iff, arith, Bool-cases, inl, inr, ◌==◌,
}
use mattermost_plugin_voices.Users.{User}
use mattermost_plugin_voices.Voice.Session.{is_active_state}
use mattermost_plugin_voices.Room.Panel.{ActiveRoom, Room, is_in, new_panel}
use mattermost_plugin_voices.Room.Agrees.{Agrees, room_of}
use mattermost_plugin_voices.Room.Agreement.{names_room, run-Agrees}
use mattermost_plugin_voices.Room.Steps.{Event, run}
use mattermost_plugin_voices.Direct.Laws.{distinct}
use mattermost_plugin_voices.Sidebar.{Sidebar, panel_of, is_id}
use mattermost_plugin_voices.Sidebar.View.{Row, active_row, join_row, visible_rooms, row, rows}

abbrev pub ids : List Room → List String
ids rooms = map (λ (r : Room). r.room_id) rooms

-- the rooms of the rows with the button that leaves
abbrev pub active_ids : List Row → List String
active_ids [] = []
active_ids (active_row r controls settings hint roster ∷ xs) = r.room_id ∷ active_ids xs
active_ids (join_row r settings ∷ xs) = active_ids xs

-- the rooms of the rows with the button that joins
abbrev pub join_ids : List Row → List String
join_ids [] = []
join_ids (active_row r controls settings hint roster ∷ xs) = join_ids xs
join_ids (join_row r settings ∷ xs) = r.room_id ∷ join_ids xs

abbrev pub elsewhere : Option ActiveRoom → String → Bool
elsewhere a r = not (is_in a r)

module _ (profiles : String → Option User) (user_id self_name : String) (is_system_admin : Bool)
    (s : Sidebar) where
  active-map :
      (rooms : List Room)
      → active_ids (map (row profiles user_id self_name is_system_admin s) rooms)
        ≡ keep (is_in (panel_of s).active_room) (ids rooms)
  unfolding row
  active-map [] = refl
  active-map (r ∷ rooms) = ground (arith, active-map rooms)

  join-map :
      (rooms : List Room)
      → join_ids (map (row profiles user_id self_name is_system_admin s) rooms)
        ≡ keep (elsewhere (panel_of s).active_room) (ids rooms)
  unfolding row
  join-map [] = refl
  join-map (r ∷ rooms) = ground (arith, join-map rooms)

keep-absent :
    (a : ActiveRoom) (rooms : List Room)
    → any (λ r. r.room_id == a.room_id) rooms ≡ false
    → (keep (is_in (some a)) (ids rooms) ≡ []) × (keep (elsewhere (some a)) (ids rooms) ≡ ids rooms)
keep-absent a [] n = (refl, refl)
keep-absent a (r ∷ rooms) n =
    ground (arith, eq_iff r.room_id a.room_id, eq_iff a.room_id r.room_id, keep-absent a rooms)

any-ids :
    (k : String) (rooms : List Room) → any (λ r. r.room_id == k) rooms ≡ contains k (ids rooms)
any-ids k [] = refl
any-ids k (r ∷ rooms) = ground (arith, any-ids k rooms)

keep-listed :
    (a : ActiveRoom) (rooms : List Room)
    → distinct (ids rooms) ≡ true
    → any (λ r. r.room_id == a.room_id) rooms ≡ true
    → keep (is_in (some a)) (ids rooms) ≡ a.room_id ∷ []
keep-listed a [] d n = ground arith
keep-listed a (r ∷ rooms) d n = elim (Bool-cases (a.room_id == r.room_id)) [
  | inl t ↦
      let e : a.room_id ≡ r.room_id = (eq_iff a.room_id r.room_id).0 t in
      let absent : any (λ r. r.room_id == a.room_id) rooms ≡ false =
        any-ids a.room_id rooms ∙ rw e (ground (arith, d)) in
      ground (arith, t, e, keep-absent a rooms absent)
  | inr f ↦
      ground (arith, f, eq_iff r.room_id a.room_id, eq_iff a.room_id r.room_id, keep-listed a rooms)
]

keep-append : (q : String → Bool) (xs ys : List String) → keep q (xs ++ ys) ≡ keep q xs ++ keep q ys
keep-append q [] ys = refl
keep-append q (x ∷ xs) ys = ground (arith, keep-append q xs ys)

ids-append : (xs ys : List Room) → ids (xs ++ ys) ≡ ids xs ++ ids ys
ids-append [] ys = refl
ids-append (x ∷ xs) ys = ap (λ l. x.room_id ∷ l) (ids-append xs ys)

keep-none : (xs : List String) → (keep (is_in none) xs ≡ []) × (keep (elsewhere none) xs ≡ xs)
keep-none [] = (refl, refl)
keep-none (x ∷ xs) = ground (arith, keep-none xs)

visible-active :
    (a : Option ActiveRoom) (rooms : List Room)
    → distinct (ids rooms) ≡ true
    → keep (is_in a) (ids (visible_rooms a rooms)) ≡ Option-to_list (room_of a)
unfolding visible_rooms Option-to_list
visible-active none rooms d = (keep-none (ids rooms)).0
visible-active (some a) rooms d = elim (Bool-cases (any (λ r. r.room_id == a.room_id) rooms)) [
  | inl t ↦ rw t (keep-listed a rooms d t)
  | inr f ↦ rw f (
      ap (keep (is_in (some a))) (ids-append rooms _)
      ∙ keep-append (is_in (some a)) (ids rooms) (a.room_id ∷ [])
      ∙ rw (keep-absent a rooms f).0 (ground (arith, eq_iff a.room_id a.room_id)))
]

visible-join :
    (a : Option ActiveRoom) (rooms : List Room)
    → keep (elsewhere a) (ids (visible_rooms a rooms)) ≡ keep (elsewhere a) (ids rooms)
unfolding visible_rooms
visible-join none rooms = refl
visible-join (some a) rooms = elim (Bool-cases (any (λ r. r.room_id == a.room_id) rooms)) [
  | inl t ↦ rw t refl
  | inr f ↦ rw f (
      ap (keep (elsewhere (some a))) (ids-append rooms _)
      ∙ keep-append (elsewhere (some a)) (ids rooms) (a.room_id ∷ [])
      ∙ ground
          (arith, eq_iff a.room_id a.room_id, append-nil (keep (elsewhere (some a)) (ids rooms))))
]

rows-listed :
    (profiles : String → Option User) (user_id self_name : String) (is_system_admin : Bool)
    (s : Sidebar)
    → distinct (ids (panel_of s).channel_list) ≡ true
    → (active_ids (rows profiles user_id self_name is_system_admin s)
        ≡ Option-to_list (room_of (panel_of s).active_room))
      × (join_ids (rows profiles user_id self_name is_system_admin s)
          ≡ keep (elsewhere (panel_of s).active_room) (ids (panel_of s).channel_list))
unfolding rows
rows-listed profiles user_id self_name is_system_admin s d =
    let p = panel_of s in
    (
      active-map profiles user_id self_name is_system_admin s _
          ∙ visible-active p.active_room p.channel_list d,
      join-map profiles user_id self_name is_system_admin s _
          ∙ visible-join p.active_room p.channel_list,
    )

keep-elsewhere :
    (a : Option ActiveRoom) (o : Option String) (xs : List String)
    → o ≡ room_of a
    → keep (elsewhere a) xs ≡ keep (λ r. not (is_id o r)) xs
keep-elsewhere none o xs e = rw e refl
keep-elsewhere (some a) o xs e = rw e refl

-- The list has the room that the user is in. After any events in which every room that is entered has
-- a name, let the panel be mounted and its voice session active, and let no two rooms of the directory
-- have one id. Then, whether or not the directory still has the room of the session, the list has
-- exactly one row with controls and the button that leaves, that of this room, and a row with the
-- button that joins for every other room of the directory, in its order.
pub run-rows :
    (profiles : String → Option User) (user_id self_name : String) (is_system_admin : Bool)
    (es : List Event) (s : Sidebar)
    → all names_room es ≡ true
    → panel_of s ≡ run user_id es new_panel
    → (panel_of s).is_unmounted ≡ false
    → is_active_state (panel_of s).session.state ≡ true
    → distinct (ids (panel_of s).channel_list) ≡ true
    → let list = rows profiles user_id self_name is_system_admin s in
      (active_ids list ≡ Option-to_list (panel_of s).session.room_id)
      × (present (panel_of s).session.room_id ≡ true)
      × (join_ids list
          ≡ keep (λ r. not (is_id (panel_of s).session.room_id r)) (ids (panel_of s).channel_list))
run-rows profiles user_id self_name is_system_admin es s i e u a d =
    let g : Agrees (panel_of s) = rw e (run-Agrees user_id es i) in
    let (active, join) = rows-listed profiles user_id self_name is_system_admin s d in
    let shown = g.shown u a in
    (
      active ∙ ap Option-to_list (sym shown),
      g.owns.room ∙ a,
      join ∙ keep-elsewhere (panel_of s).active_room (panel_of s).session.room_id _ shown,
    )
