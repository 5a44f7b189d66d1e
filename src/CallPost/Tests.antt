-- ===== src/CallPost/Tests.antt =====
-- The post of a call of "u1" to "u2", as three users see it.
use mattermost_plugin_voices.Base.{
  String, false, Option, none, some, ◌≡◌, refl, or_else, if◌then◌else◌, ◌==◌,
}
use Prim.Native.String.{◌++◌}
use mattermost_plugin_voices.Base.Js.{Value, get}
use mattermost_plugin_voices.Base.Text.{trim}
use mattermost_plugin_voices.Users.{User}
use mattermost_plugin_voices.CallPost.{create_video_invite_post, display_name, shown, said, at_name}
use mattermost_plugin_voices.CallPost.Shown.{shown-create}

abbrev ann : User
ann = record {
  id = "u1";
  username = "ann";
  first_name = "Ann";
  last_name = "";
  is_bot = false;
  deleted = false;
}

abbrev profiles : String → Option User
profiles id = if id == "u1" then some ann else none

abbrev parse_nothing : String → Option Value
parse_nothing s = none

abbrev seen_by : String → Option String
seen_by viewer =
    shown parse_nothing profiles viewer
      (get "props" (create_video_invite_post "d1" ann "u2" "c1" 9))

shown_test :
    (seen_by "u2"
      ≡ some "Ann wants to start a video call. Use the call window to accept or decline.")
    × (seen_by "u1" ≡ some "You started a video call.")
    × (at_name ann ≡ "@ann")
unfolding shown create_video_invite_post trim said at_name
shown_test = (refl, refl, refl)

shown-create_example :
    seen_by "u2"
    ≡ some (
        if "u2" == "u2"
        then or_else (display_name (profiles "u1")) "Someone"
          ++ " wants to start a video call. Use the call window to accept or decline."
        else if "u1" == "u2"
        then "You started a video call."
        else "Video call between teammates.")
shown-create_example = shown-create parse_nothing profiles "d1" "u2" "c1" "u2" ann 9 refl refl
