-- ===== src/CallPicker/Tests.antt =====
-- A concrete picker: the page of "u1" with direct channels to "u2" and "u3".
use Prim.Native.Char.{code}
use mathlib.Core.List.{Option-to_list}
use mattermost_plugin_voices.Base.{
  ℕ, leb, String, Bool, true, false, Option, none, some, List, [], ◌∷◌, ◌++◌, ◌≡◌, refl, keep, not,
  ◌==◌, if◌then◌else◌,
}
use mattermost_plugin_voices.Base.Js.{Value}
use mattermost_plugin_voices.Base.Text.{trim}
use mattermost_plugin_voices.Users.{User, user_display_name}
use mattermost_plugin_voices.Invite.Eligible.{includes, starts_with}
use mattermost_plugin_voices.Direct.{Channel, Row, picker_rows}
use mattermost_plugin_voices.Direct.Laws.{peers}
use mattermost_plugin_voices.Call.Slice.{Config}
use mattermost_plugin_voices.Call.Reducers.{reduce}
use mattermost_plugin_voices.Call.World.{World, new_world, dispatch}
use mattermost_plugin_voices.Call.Steps.{Event, config_loaded, open_picker, run}
use mattermost_plugin_voices.Call.Invariance.{run-Consistent}
use mattermost_plugin_voices.Call.Guards.{Placed}
use mattermost_plugin_voices.CallPicker.{picker_props, rendered, handle_pick, sort_rows}
use mattermost_plugin_voices.CallPicker.Listed.{by_name, others, pinned, is_left, rendered-pinned}
use mattermost_plugin_voices.CallPicker.Picked.{pick-Placed}

abbrev parse_nothing : String → Option Value
parse_nothing s = none

abbrev user : String → String → User
user id name = record {
  id = id;
  username = name;
  first_name = "";
  last_name = "";
  is_bot = false;
  deleted = false;
}

abbrev profiles : String → Option User
profiles id =
    if id == "u2"
    then some (user "u2" "zoe")
    else if id == "u3"
    then some (user "u3" "bob")
    else none

abbrev direct : String → String → Channel
direct id peer = record { id = id; teammate_id = peer; is_direct = true; name = "" }

abbrev channels : List Channel
channels = direct "d2" "u2" ∷ direct "d3" "u3" ∷ []

abbrev as_it_is : String → String
as_it_is s = s

-- the code of the first character
abbrev first_code : String → ℕ
first_code String.[] = 0
first_code (String.◌∷◌ c s) = code c

abbrev after : String → String → Bool
after a b = not (leb (first_code a) (first_code b))

abbrev config : Config
config = record {
  stun_server = "";
  turn_server = "";
  turn_server_username = "";
  turn_server_credential = "";
}

abbrev events : List Event
events = config_loaded config ∷ open_picker none ∷ []

abbrev page : World
page = run parse_nothing events (new_world (some (user "u1" "ann")) profiles)

abbrev rows : List Row
rows = picker_rows "u1" profiles [] channels

abbrev listed : (text : String) (hint : Option (Option String)) → List String
listed text hint = peers (rendered as_it_is after text (picker_props page.slice (some rows) hint))

listed_test :
    (listed "" (some none) ≡ "u3" ∷ "u2" ∷ [])
    × (listed "" (some (some "u2")) ≡ "u2" ∷ "u3" ∷ [])
    × (listed " o" (some (some "u2")) ≡ "u2" ∷ "u3" ∷ [])
    × (listed "b" (some (some "u2")) ≡ "u3" ∷ [])
    × (listed "" none ≡ "u3" ∷ "u2" ∷ [])
unfolding picker_rows rendered picker_props trim includes starts_with user_display_name run reduce
    dispatch
listed_test = (refl, refl, refl, refl, refl)

rendered-pinned_example :
    rendered as_it_is after "o" (picker_props page.slice (some rows) (some (some "u2"))) ≡ (
      if page.slice.picker_open
      then keep
          (is_left as_it_is "o")
          (Option-to_list (pinned "u2" rows) ++ sort_rows (by_name after) (others "u2" rows))
      else [])
rendered-pinned_example =
    rendered-pinned as_it_is after "o" "u1" profiles channels page.slice (some "u2")

pick-Placed_example :
    let (t, v) = handle_pick "c1" "u2" ("o", page) in
    (t ≡ "") × Placed "c1" "u2" false v × (v.slice.picker_open ≡ false)
unfolding picker_rows rendered picker_props trim includes starts_with user_display_name run reduce
    dispatch
pick-Placed_example =
    pick-Placed as_it_is after "o" "c1" "u2" channels (some (some "u2")) page
      (run-Consistent parse_nothing (some (user "u1" "ann")) profiles events) refl refl refl refl
      refl refl
