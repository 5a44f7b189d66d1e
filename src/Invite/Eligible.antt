-- ===== src/Invite/Eligible.antt =====
-- The users that the picker lists: `eligibleInviteUsers` of
-- webapp/src/components/modals/audio_group_call/audio_group_call.jsx. Given are `toLowerCase`, and
-- whether `localeCompare` puts one name after another.
use mattermost_plugin_voices.Base.{
  String, Bool, true, false, not, ◌&&◌, ◌||◌, Option, none, some, List, [], ◌∷◌, contains, is_set,
  if◌then◌else◌, ◌==◌,
}
use Prim.Native.Char.{code}
use mattermost_plugin_voices.Base.{eqb}
use mattermost_plugin_voices.Base.Text.{trim}
use mattermost_plugin_voices.Users.{User, user_display_name}
use mattermost_plugin_voices.Room.Panel.{ActiveRoom, Room}
use mattermost_plugin_voices.Room.Picker.{Picker}

-- `s.startsWith(p)`
unfoldable pub starts_with : (p s : String) → Bool
starts_with String.[] s = true
starts_with (String.◌∷◌ c p) String.[] = false
starts_with (String.◌∷◌ c p) (String.◌∷◌ d s) = eqb (code c) (code d) && starts_with p s

-- `s.includes(p)`
unfoldable pub includes : (p s : String) → Bool
unfolding starts_with
includes p String.[] = starts_with p ""
includes p (String.◌∷◌ c s) = starts_with p (String.◌∷◌ c s) || includes p s

-- the ids of the participants of the room that the user is in, as the directory has it
abbrev pub room_user_ids : Option ActiveRoom → List Room → List String
room_user_ids none rooms = []
room_user_ids (some a) [] = []
room_user_ids (some a) (r ∷ rooms) =
    if r.room_id == a.room_id then r.participants else room_user_ids (some a) rooms

-- the tests on a user that has an id that was not seen
unfoldable pub is_eligible :
    (lower : String → String) (user_id query : String) (taken : List String) → User → Bool
unfolding includes user_display_name
is_eligible lower user_id query taken u =
    not (u.id == user_id || u.deleted || u.is_bot || contains u.id taken)
    && (not (is_set query)
        || includes query (lower (user_display_name (some u)))
        || includes query (lower u.username))

-- `source.filter(…)`, with the ids seen so far
abbrev pub unseen : (fits : User → Bool) (seen : List String) → List User → List User
unseen fits seen [] = []
unseen fits seen (u ∷ users) =
    let skipped = not (is_set u.id) || contains u.id seen in
    let rest = unseen fits (if skipped then seen else u.id ∷ seen) users in
    if skipped || not (fits u) then rest else u ∷ rest

-- `sort`, which keeps the order of names that compare as equal
abbrev pub insert_user : (after : User → User → Bool) → User → List User → List User
insert_user after u [] = u ∷ []
insert_user after u (x ∷ users) =
    if after u x then x ∷ insert_user after u users else u ∷ (x ∷ users)

abbrev pub sort_users : (after : User → User → Bool) → List User → List User
sort_users after [] = []
sort_users after (u ∷ users) = insert_user after u (sort_users after users)

-- `inviteSearchHasRun ? inviteSearchResults : (this.props.profiles || [])`
abbrev pub source : Picker → (profiles : List User) → List User
source k profiles = if k.has_run then k.results else profiles

-- `eligibleInviteUsers`
unfoldable pub eligible_invite_users :
    (lower : String → String) (after : User → User → Bool) (user_id : String)
    → Option ActiveRoom
    → List Room
    → (profiles : List User) → Picker
    → List User
unfolding is_eligible trim
eligible_invite_users lower after user_id active_room rooms profiles k = sort_users after (
    unseen (is_eligible lower user_id (lower (trim k.search)) (room_user_ids active_room rooms)) []
      (source k profiles))
