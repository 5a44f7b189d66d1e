-- ===== src/Room/Tests.antt =====
-- A panel that enters a room and leaves it while the swarm is slow to close: the theorems at it.
use mattermost_plugin_voices.Base.{true, false, some, List, [], ◌∷◌, ◌++◌, refl}
use mattermost_plugin_voices.Media.{MediaStream}
use mattermost_plugin_voices.Voice.Session.{Pending, at_once, later}
use mattermost_plugin_voices.Room.Panel.{Panel, new_panel}
use mattermost_plugin_voices.Room.Joining.{finish_close, handle_join_room, handle_leave_room}
use mattermost_plugin_voices.Room.Connecting.{
  hub_answered, media_answered, bootstrap_directory, reconcile_voice_connection,
}
use mattermost_plugin_voices.Room.Steps.{
  Event, mounts, joins, updates, media_arrives, hub_arrives, run,
}
use mattermost_plugin_voices.Room.Agrees.{Agrees}
use mattermost_plugin_voices.Room.Agreement.{run-Agrees}
use mattermost_plugin_voices.Room.Switching.{IsIn, last_join_wins}
use mattermost_plugin_voices.Room.Switching.Leaving.{IsOut, last_leave_wins}

abbrev microphone : MediaStream
microphone = record {
  id = 5;
  tracks = record { id = 6; is_video = false; stop_throws = false } ∷ [];
}

abbrev connected : List Event
connected =
    mounts
    ∷ joins "r1" "One" at_once
    ∷ updates true
    ∷ media_arrives "r1" (some microphone)
    ∷ updates true
    ∷ hub_arrives "r1" (some 3) (some 4)
    ∷ []

-- It asks for r2 and for r3 while the swarm of r1 closes.
abbrev switching : List Event
switching = connected ++ (joins "r2" "Two" later ∷ joins "r3" "Three" later ∷ [])

abbrev panel : Panel
panel = run "u1" switching new_panel

run-Agrees_example : Agrees (run "u1" switching new_panel)
run-Agrees_example = run-Agrees "u1" switching refl

abbrev closing_swarm : Pending
closing_swarm = record { number = 1; hub = some 3; timeout = some 2 }

last_join_wins_example : IsIn "r4" (finish_close 1 (handle_join_room "r4" "Four" later panel))
unfolding run handle_join_room hub_answered media_answered bootstrap_directory
    reconcile_voice_connection
last_join_wins_example =
    last_join_wins 1 "r4" "Four" later panel closing_swarm run-Agrees_example refl refl refl refl
      refl

last_leave_wins_example : IsOut (finish_close 1 (handle_leave_room later panel))
unfolding run handle_join_room hub_answered media_answered bootstrap_directory
    reconcile_voice_connection
last_leave_wins_example =
    last_leave_wins 1 later panel closing_swarm run-Agrees_example refl refl refl
