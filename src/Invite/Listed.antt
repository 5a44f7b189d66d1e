-- ===== src/Invite/Listed.antt =====
-- Laws of Invite/Eligible.antt:
-- webapp/src/components/modals/audio_group_call/audio_group_call.jsx.
use mattermost_plugin_voices.Base.{
  String, Bool, true, false, not, ◌&&◌, ◌||◌, Option, none, some, List, [], ◌∷◌, ◌≡◌, refl, ◌∙◌,
  any, contains, is_set, arith, eq_iff, if◌then◌else◌, ◌==◌,
}
use mattermost_plugin_voices.Base.Text.{trim}
use mattermost_plugin_voices.Users.{User, user_display_name}
use mattermost_plugin_voices.Room.Panel.{ActiveRoom, Room}
use mattermost_plugin_voices.Room.Picker.{Picker}
use mattermost_plugin_voices.Invite.Eligible.{
  is_eligible, includes, room_user_ids, unseen, insert_user, sort_users, source,
  eligible_invite_users,
}

-- the first user with an id
abbrev pub find_user : (id : String) → List User → Option User
find_user id [] = none
find_user id (u ∷ users) = if u.id == id then some u else find_user id users

abbrev pub has_user : (id : String) → List User → Bool
has_user id users = any (λ u. u.id == id) users

abbrev pub are_distinct : List User → Bool
are_distinct [] = true
are_distinct (u ∷ users) = not (has_user u.id users) && are_distinct users

-- a user if it passes a test
abbrev pub only : (fits : User → Bool) → Option User → Option User
only fits none = none
only fits (some u) = if fits u then some u else none

find-unseen :
    (fits : User → Bool) (seen : List String) (id : String) (users : List User)
    → is_set id ≡ true
    → find_user id (unseen fits seen users)
      ≡ (if contains id seen then none else only fits (find_user id users))
find-unseen fits seen id [] s = ground arith
find-unseen fits seen id (u ∷ users) s = ground (
  arith,
  eq_iff u.id id,
  eq_iff id u.id,
  find-unseen fits seen id users,
  find-unseen fits (u.id ∷ seen) id users,
)

has-unseen :
    (fits : User → Bool) (seen : List String) (id : String) (users : List User)
    → contains id seen ≡ true
    → has_user id (unseen fits seen users) ≡ false
has-unseen fits seen id [] s = refl
has-unseen fits seen id (u ∷ users) s =
    ground
      (arith, eq_iff u.id id, has-unseen fits seen id users, has-unseen fits (u.id ∷ seen) id users)

distinct-unseen :
    (fits : User → Bool) (seen : List String) (users : List User)
    → are_distinct (unseen fits seen users) ≡ true
distinct-unseen fits seen [] = refl
distinct-unseen fits seen (u ∷ users) = ground (
  arith,
  eq_iff u.id u.id,
  distinct-unseen fits seen users,
  distinct-unseen fits (u.id ∷ seen) users,
  has-unseen fits (u.id ∷ seen) u.id users,
)

module _ (after : User → User → Bool) where
  has-insert :
      (id : String) (u : User) (users : List User)
      → has_user id (insert_user after u users) ≡ (u.id == id || has_user id users)
  has-insert id u [] = ground arith
  has-insert id u (x ∷ users) = ground (arith, has-insert id u users)

  find-insert :
      (id : String) (u : User) (users : List User)
      → has_user u.id users ≡ false
      → find_user id (insert_user after u users)
        ≡ (if u.id == id then some u else find_user id users)
  find-insert id u [] h = ground arith
  find-insert id u (x ∷ users) h =
      ground (arith, eq_iff u.id id, eq_iff x.id id, eq_iff x.id u.id, find-insert id u users)

  distinct-insert :
      (u : User) (users : List User)
      → has_user u.id users ≡ false
      → are_distinct users ≡ true
      → are_distinct (insert_user after u users) ≡ true
  distinct-insert u [] h d = refl
  distinct-insert u (x ∷ users) h d =
      ground (
        arith,
        eq_iff u.id x.id,
        eq_iff x.id u.id,
        has-insert x.id u users,
        distinct-insert u users,
      )

  has-sort :
      (id : String) (users : List User) → has_user id (sort_users after users) ≡ has_user id users
  has-sort id [] = refl
  has-sort id (u ∷ users) =
      has-insert id u (sort_users after users) ∙ ground (arith, has-sort id users)

  sort-find :
      (id : String) (users : List User)
      → are_distinct users ≡ true
      → (find_user id (sort_users after users) ≡ find_user id users)
        × (are_distinct (sort_users after users) ≡ true)
  sort-find id [] d = (refl, refl)
  sort-find id (u ∷ users) d = ground (
    arith,
    has-sort u.id users,
    find-insert id u (sort_users after users),
    distinct-insert u (sort_users after users),
    sort-find id users,
  )

only-same : (f g : User → Bool) → ((u : User) → f u ≡ g u) → (o : Option User) → only f o ≡ only g o
only-same f g e none = refl
only-same f g e (some u) = ground (arith, e u)

-- the room of the directory with an id
abbrev pub find_room : (id : String) → List Room → Option Room
find_room id [] = none
find_room id (r ∷ rooms) = if r.room_id == id then some r else find_room id rooms

abbrev pub takes_part : (id : String) → Option Room → Bool
takes_part id none = false
takes_part id (some r) = contains id r.participants

-- A user is in the room that the panel shows, as the directory has it.
abbrev pub is_present : (id : String) → Option ActiveRoom → List Room → Bool
is_present id none rooms = false
is_present id (some a) rooms = takes_part id (find_room a.room_id rooms)

room_user_ids-present :
    (id : String) (a : Option ActiveRoom) (rooms : List Room)
    → contains id (room_user_ids a rooms) ≡ is_present id a rooms
room_user_ids-present id none rooms = refl
room_user_ids-present id (some a) [] = refl
room_user_ids-present id (some a) (r ∷ rooms) =
    ground (arith, room_user_ids-present id (some a) rooms)

is_eligible-tests :
    (lower : String → String) (user_id query : String) (a : Option ActiveRoom) (rooms : List Room)
    (u : User)
    → is_eligible lower user_id query (room_user_ids a rooms) u
      ≡ not (u.id == user_id)
        && not u.deleted
        && not u.is_bot
        && not (is_present u.id a rooms)
        && (not (is_set query)
            || includes query (lower (user_display_name (some u)))
            || includes query (lower u.username))
unfolding is_eligible
is_eligible-tests lower user_id query a rooms u = ground (arith, room_user_ids-present u.id a rooms)

-- Whatever order `localeCompare` gives, the picker lists no id twice, and under an id that is not
-- empty it lists the first user that the search, or before a search the store, has with that id,
-- exactly if that user is not the user, not deleted, no bot, not in the room, and has the text of the
-- box in a name.
pub find-eligible :
    (lower : String → String) (after : User → User → Bool) (user_id id : String)
    (active_room : Option ActiveRoom) (rooms : List Room) (profiles : List User) (k : Picker)
    → is_set id ≡ true
    → let users = eligible_invite_users lower after user_id active_room rooms profiles k in
      let query = lower (trim k.search) in
      let fits = λ (u : User).
        not (u.id == user_id)
        && not u.deleted
        && not u.is_bot
        && not (is_present u.id active_room rooms)
        && (not (is_set query)
            || includes query (lower (user_display_name (some u)))
            || includes query (lower u.username)) in
      let found = find_user id (if k.has_run then k.results else profiles) in
      (find_user id users ≡ only fits found) × (are_distinct users ≡ true)
unfolding eligible_invite_users
find-eligible lower after user_id id active_room rooms profiles k s =
    let fits =
      is_eligible lower user_id (lower (trim k.search)) (room_user_ids active_room rooms) in
    let (found, distinct) =
      sort-find after id (unseen fits [] (source k profiles))
        (distinct-unseen fits [] (source k profiles)) in
    (
      found
          ∙ find-unseen fits [] id (source k profiles) s
          ∙ only-same fits _
              (is_eligible-tests lower user_id (lower (trim k.search)) active_room rooms) _,
      distinct,
    )
