-- ===== src/Voice/Tests.antt =====
-- A concrete room: the theorems of the voice session at it.
use mattermost_plugin_voices.Base.{
  suc, true, false, none, some, List, [], ◌∷◌, ◌++◌, map, push, ◌≡◌, refl,
}
use mattermost_plugin_voices.Media.{MediaStream}
use mattermost_plugin_voices.Voice.Effect.{run_callback, clear_timer}
use mattermost_plugin_voices.Voice.Session.{
  VoiceSession, new_session, later, throws, idle, start, acquired, hub_created, close, finish,
  close_hub_of,
}
use mattermost_plugin_voices.Voice.Peers.{HubPeer, Local, register_hub_peer}
use mattermost_plugin_voices.Voice.Steps.{
  Event, starts, acquires, creates_hub, registers, closes, run,
}
use mattermost_plugin_voices.Voice.Ownership.{Owns, run-Owns}
use mattermost_plugin_voices.Voice.Closing.{
  close_again, let_go_effects, swarm_effects, finish-close_again, finish-close,
}

abbrev microphone : MediaStream
microphone = record {
  id = 5;
  tracks = record { id = 6; is_video = false; stop_throws = false } ∷ [];
}

abbrev bob : HubPeer
bob = record { from = "p2"; from_user_id = "u2"; from_username = "bob"; from_display_name = "Bob" }

abbrev muted : Local
muted = record { audio_on = false; audio_enabled = true; video_on = false; video_enabled = false }

abbrev joined : List Event
joined =
    starts "r1"
    ∷ acquires "r1" (some microphone)
    ∷ creates_hub "r1" (some 3) true (some 4)
    ∷ registers bob
    ∷ []

abbrev room : VoiceSession
room = run joined new_session

run-Owns_example : Owns (run (joined ++ (closes 9 later ∷ [])) new_session)
run-Owns_example = run-Owns (joined ++ (closes 9 later ∷ []))

finish-close_again_example :
    let waiting = close_again (8 ∷ 7 ∷ []) (close 9 later room) in
    let t = finish room.next waiting in
    (t.state ≡ idle)
    × (t.cleanup_callbacks ≡ [])
    × (t.log
        ≡ push
            (clear_timer (suc room.next)
              ∷ (close_hub_of room.hub ++ map run_callback (9 ∷ 8 ∷ 7 ∷ [])))
            (close 9 later room).log)
    × (finish room.next t ≡ t)
unfolding run register_hub_peer hub_created acquired start
finish-close_again_example = finish-close_again 9 4 (8 ∷ 7 ∷ []) room refl refl

finish-close_example :
    let t = finish room.next (close 9 throws room) in
    (t.state ≡ idle)
    × (t.room_id ≡ none)
    × (t.stream ≡ none)
    × (t.hub ≡ none)
    × (t.swarm ≡ none)
    × (t.peers ≡ [])
    × (t.peer_timers ≡ [])
    × (t.playbacks ≡ [])
    × (t.log
        ≡ push
            (close_hub_of room.hub ++ (run_callback 9 ∷ []))
            (push (swarm_effects room) (push (let_go_effects room) room.log)))
unfolding run register_hub_peer hub_created acquired start
finish-close_example = finish-close 9 throws room refl
