-- ===== src/Window/Tests.antt =====
-- A concrete call: the page of "u1" calls "u2", and the window that it shows.
use mattermost_plugin_voices.Base.{
  String, true, false, Option, none, some, List, [], ◌∷◌, ◌≡◌, refl, ◌==◌, if◌then◌else◌,
}
use mathlib.Core.List.{Option-to_list}
use mattermost_plugin_voices.Base.Js.{Value}
use mattermost_plugin_voices.Media.{MediaStream}
use mattermost_plugin_voices.Users.{User}
use mattermost_plugin_voices.Call.Slice.{Config, Slice}
use mattermost_plugin_voices.Call.World.{new_world}
use mattermost_plugin_voices.Call.Placing.{make_video_call, session_created}
use mattermost_plugin_voices.Call.Sharing.{peer_stream}
use mattermost_plugin_voices.Call.Reducers.{reduce}
use mattermost_plugin_voices.Call.Steps.{
  Event, config_loaded, place, session_answer, stream_arrives, run,
}
use mattermost_plugin_voices.Window.{connecting, screens, buttons, title, cancel_call}
use mattermost_plugin_voices.Window.Shown.{chosen, run-screens}

abbrev parse_nothing : String → Option Value
parse_nothing s = none

abbrev user : String → String → User
user id name = record {
  id = id;
  username = name;
  first_name = "";
  last_name = "";
  is_bot = false;
  deleted = false;
}

abbrev profiles : String → Option User
profiles id = if id == "u2" then some (user "u2" "bob") else none

abbrev config : Config
config = record {
  stun_server = "";
  turn_server = "";
  turn_server_username = "";
  turn_server_credential = "";
}

abbrev late_stream : MediaStream
late_stream = record { id = 4; tracks = [] }

abbrev calling : List Event
calling =
    config_loaded config ∷ place "c1" "u2" false ∷ session_answer "c1" "u2" false (some "s1") ∷ []

-- a stream of an earlier peer that arrives after that call is over, and then a call
abbrev calling_late : List Event
calling_late =
    config_loaded config
    ∷ stream_arrives late_stream
    ∷ place "c1" "u2" false
    ∷ session_answer "c1" "u2" false (some "s1")
    ∷ []

abbrev slice_after : List Event → Slice
slice_after es = (run parse_nothing es (new_world (some (user "u1" "ann")) profiles)).slice

ringing_test :
    (screens (slice_after calling) ≡ connecting ∷ [])
    × (title (slice_after calling) connecting ≡ "Ringing…")
    × (buttons (slice_after calling) connecting ≡ cancel_call ∷ [])
unfolding run make_video_call session_created reduce screens title buttons
ringing_test = (refl, refl, refl)

blank_test :
    (screens (slice_after calling_late) ≡ []) × ((slice_after calling_late).modal_visible ≡ true)
unfolding run make_video_call session_created peer_stream reduce screens
blank_test = (refl, refl)

run-screens_example :
    screens (slice_after calling_late) ≡ Option-to_list (chosen (slice_after calling_late))
run-screens_example = run-screens parse_nothing (some (user "u1" "ann")) profiles calling_late
