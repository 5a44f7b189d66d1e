-- ===== src/Ring/Tests.antt =====
-- A ringer that starts twice, with a browser that cannot play the first time, and stops.
use mattermost_plugin_voices.Base.{true, false, List, [], ◌∷◌, ◌≡◌, refl}
use mattermost_plugin_voices.Ring.{
  mute, plays, Event, starts, cycles, new_ringer, run, open_context, close_context, resume_context,
  pulses, set_interval,
}
use mattermost_plugin_voices.Ring.Balance.{Balanced, run-Balanced}

abbrev rings : List Event
rings = starts (mute true) ∷ starts (plays false) ∷ cycles ∷ []

rings_test :
    (run 2 rings new_ringer).log
    ≡ pulses 1 2
      ∷ set_interval 2
      ∷ pulses 1 2
      ∷ open_context 1
      ∷ close_context 0
      ∷ resume_context 0
      ∷ open_context 0
      ∷ []
unfolding run
rings_test = refl

run-Balanced_example : Balanced 1 (run 2 rings new_ringer)
run-Balanced_example = run-Balanced 1 2 rings
