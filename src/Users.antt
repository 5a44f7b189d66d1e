-- ===== src/Users.antt =====
-- User profiles and the names that the code shows for them: webapp/src/utils/dmPickerPeers.js,
-- webapp/src/actions/index.js and webapp/src/utils/callInvitePosts.js.
use Prim.Native.String.{◌++◌}
use mattermost_plugin_voices.Base.{String, Bool, Option, none, some, or_else}
use mattermost_plugin_voices.Base.Text.{trim}

-- A missing name is the empty text, as `|| ''` makes it.
pub record User : Type 0 where
  pub id : String
  pub username : String
  pub first_name : String
  pub last_name : String
  pub is_bot : Bool
  pub deleted : Bool

unfoldable pub full_name : User → String
unfolding trim
full_name u = trim (u.first_name ++ " " ++ u.last_name)

-- `userDisplayName`
unfoldable pub user_display_name : Option User → String
unfolding full_name
user_display_name none = ""
user_display_name (some u) = or_else (full_name u) (or_else u.username u.id)

-- `callerDisplayName`
unfoldable pub caller_display_name : Option User → String
unfolding full_name
caller_display_name none = "Someone"
caller_display_name (some u) = or_else (full_name u) (or_else u.username "Someone")
