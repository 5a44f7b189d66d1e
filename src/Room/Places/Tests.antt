-- ===== src/Room/Places/Tests.antt =====
-- A panel that switches rooms while the swarm is slow to close, and where it is.
use mattermost_plugin_voices.Base.{true, false, some, List, [], ◌∷◌, ◌++◌, ◌≡◌, refl}
use mattermost_plugin_voices.Media.{MediaStream}
use mattermost_plugin_voices.Voice.Session.{at_once, later}
use mattermost_plugin_voices.Room.Panel.{new_panel}
use mattermost_plugin_voices.Room.Joining.{finish_close, handle_join_room}
use mattermost_plugin_voices.Room.Connecting.{
  hub_answered, media_answered, bootstrap_directory, reconcile_voice_connection,
}
use mattermost_plugin_voices.Room.Steps.{
  Event, mounts, joins, updates, media_arrives, hub_arrives, swarm_finishes, run,
}
use mattermost_plugin_voices.Room.Places.{outside, inside, leaving, place, Leads, Holds}
use mattermost_plugin_voices.Room.Places.Runs.{run-Leads}

abbrev microphone : MediaStream
microphone = record {
  id = 5;
  tracks = record { id = 6; is_video = false; stop_throws = false } ∷ [];
}

-- It asks for r2 while the swarm of r1 closes, and then clicks on r1, which is still shown.
abbrev switching : List Event
switching =
    mounts
    ∷ joins "r1" "One" at_once
    ∷ updates true
    ∷ media_arrives "r1" (some microphone)
    ∷ updates true
    ∷ hub_arrives "r1" (some 3) (some 4)
    ∷ joins "r2" "Two" later
    ∷ joins "r1" "One" later
    ∷ []

abbrev switched : List Event
switched = switching ++ (swarm_finishes 1 ∷ [])

places_test :
    (place (run "u1" switching new_panel) ≡ leaving (some "r1") (some "r2"))
    × (place (run "u1" switched new_panel) ≡ inside "r2")
unfolding run place handle_join_room hub_answered media_answered bootstrap_directory
    reconcile_voice_connection finish_close
places_test = (refl, refl)

run-Leads_example :
    Leads "u1" switched outside (place (run "u1" switched new_panel))
    × Holds (place (run "u1" switched new_panel)) (run "u1" switched new_panel)
run-Leads_example = run-Leads "u1" switched refl
