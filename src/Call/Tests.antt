-- ===== src/Call/Tests.antt =====
-- Concrete calls: the users "u1" and "u2", a page of "u1", and the theorems at them.
use mattermost_plugin_voices.Base.{
  String, true, false, Option, none, some, List, [], ◌∷◌, ◌++◌, ◌≡◌, ◌↔◌, refl, any, ◌==◌, eq_iff,
  arith, if◌then◌else◌,
}
use mattermost_plugin_voices.Base.Js.{Value, str, num, bool, obj, Fields, field, end}
use mattermost_plugin_voices.Media.{MediaStream}
use mattermost_plugin_voices.Users.{User}
use mattermost_plugin_voices.Signal.{SignalSession, relayed}
use mattermost_plugin_voices.Call.Session.{new_session, ringing}
use mattermost_plugin_voices.Call.Listeners.{DeclineListener, CancelListener, is_decline}
use mattermost_plugin_voices.Call.Slice.{Config}
use mattermost_plugin_voices.Call.Reducers.{reduce}
use mattermost_plugin_voices.Call.Placing.{make_video_call, session_created}
use mattermost_plugin_voices.Call.World.{World, new_world, dispatch}
use mattermost_plugin_voices.Call.Ending.{end_call, reject_call, outgoing_declined}
use mattermost_plugin_voices.Call.Answering.{accept_payload, inbox_message}
use mattermost_plugin_voices.Call.Consistent.{Consistent}
use mattermost_plugin_voices.Call.Ended.{Ended, end_call-Ended, reject_call-Ended}
use mattermost_plugin_voices.Call.Sharing.{
  Caps, caps, MediaAnswer, rejected, granted, captured, refused, try_steps, requests, share_media,
}
use mattermost_plugin_voices.Call.Steps.{
  Event, config_loaded, place, session_answer, inbox, accept_arrives, decline_arrives, found_peer,
  step, run,
}
use mattermost_plugin_voices.Call.Invariance.{run-Consistent}
use mattermost_plugin_voices.Call.Teardown.{hub, is_end_of, end_call_closes}
use mattermost_plugin_voices.Call.Answers.{is_decline-relayed, accept_taken_for_decline}
use mattermost_plugin_voices.Call.Guards.{Placed, place-Placed, busy_refuses, stale_ignored}
use mattermost_plugin_voices.Call.Capture.{try_steps_first, late_capture_kept}

abbrev parse_nothing : String → Option Value
parse_nothing s = none

abbrev user : String → String → User
user id name = record {
  id = id;
  username = name;
  first_name = "";
  last_name = "";
  is_bot = false;
  deleted = false;
}

abbrev profiles : String → Option User
profiles id =
    if id == "u1"
    then some (user "u1" "ann")
    else if id == "u2"
    then some (user "u2" "bob")
    else none

abbrev config : Config
config = record {
  stun_server = "";
  turn_server = "";
  turn_server_username = "";
  turn_server_credential = "";
}

abbrev page : World
page = new_world (some (user "u1" "ann")) profiles

abbrev loaded : List Event
loaded = config_loaded config ∷ []

abbrev calling : List Event
calling =
    config_loaded config ∷ place "c1" "u2" false ∷ session_answer "c1" "u2" false (some "s1") ∷ []

-- The callee's accept, as it would arrive if the hub said who it is for.
abbrev accepted : List Event
accepted = calling ++ (accept_arrives "u1" "c1" 0 (accept_payload "u1") ∷ [])

abbrev invite_from : String → Value
invite_from sender = obj (
    field "version" (num 1) (
      field "type" (str "invite") (
        field "senderId" (str sender) (
          field "sessionId" (str "s2") (
            field "callId" (str "c2")
              (field "payload" (obj (field "audioOnly" (bool true) end)) end))))))

abbrev rung : List Event
rung = config_loaded config ∷ inbox (invite_from "u2") ∷ []

abbrev at : List Event → World
at es = run parse_nothing es page

consistent : (es : List Event) → Consistent (at es)
consistent es = run-Consistent parse_nothing (some (user "u1" "ann")) profiles es

-- The concrete worlds: the call of "u1" rings out, the call of "u2" rings in.
ringing_test : ((at calling).session.state ≡ ringing) × ((at rung).slice.call_incoming ≡ true)
unfolding run make_video_call session_created inbox_message reduce
ringing_test = (refl, refl)

run-Consistent_example : Consistent (run parse_nothing accepted page)
run-Consistent_example = run-Consistent parse_nothing (some (user "u1" "ann")) profiles accepted

end_call-Ended_example : Ended (end_call (at accepted))
end_call-Ended_example = end_call-Ended (at accepted) (consistent accepted)

reject_call-Ended_example : Ended (reject_call (at rung))
reject_call-Ended_example = reject_call-Ended (at rung) (consistent rung)

-- A call that rings has the hub 0 and nothing else.
end_call_closes_example : any (is_end_of (hub 0)) (end_call (at calling)).log ≡ true
unfolding run make_video_call session_created reduce
end_call_closes_example = end_call_closes (hub 0) (at calling) refl

place-Placed_example : Placed "c9" "u2" true (step parse_nothing (place "c9" "u2" true) (at loaded))
unfolding run reduce dispatch
place-Placed_example =
    place-Placed parse_nothing "c9" "u2" true (at loaded) (consistent loaded) refl refl refl refl
      (λ e. ground (arith, eq_iff "u2" "u1")) refl refl

busy_refuses_example :
    (step parse_nothing (place "c9" "u2" true) (at rung) ≡ at rung)
    × (step parse_nothing (inbox (invite_from "u3")) (at rung) ≡ at rung)
unfolding run inbox_message reduce
busy_refuses_example = busy_refuses parse_nothing "c9" "u2" true (invite_from "u3") (at rung) refl

stale_ignored_example :
    (step parse_nothing (accept_arrives "u1" "c9" 0 (accept_payload "u1")) (at calling)
      ≡ at calling)
    × (step parse_nothing (found_peer "c9" "u1" 7) (at calling) ≡ at calling)
    × (step parse_nothing (session_answer "c9" "u1" false none) (at calling) ≡ at calling)
unfolding run make_video_call session_created reduce
stale_ignored_example =
    stale_ignored parse_nothing "c9" "u1" false 0 7 (accept_payload "u1") (at calling)
      (consistent calling) (λ e. ground (arith, eq_iff "c1" "c9"))

abbrev bob : String
bob = "u2"

abbrev second_call : String
second_call = "c2"

abbrev listener : DeclineListener
listener = record { hub = 0; callee_id = "u2"; call_id = "c1"; live = true }

abbrev session : SignalSession
session = record { version = 1; session_id = "s1"; call_id = "c1" }

abbrev forged : Fields
forged = field "fromUserId" (str "u3") end

is_decline-relayed_example :
    (v : Value) × (relayed "u2" session (obj forged) ≡ some v)
    × ((is_decline parse_nothing listener v ≡ true) ↔ (bob ≡ bob))
is_decline-relayed_example =
    is_decline-relayed parse_nothing listener "u2" session forged refl refl refl

accept_taken_for_decline_example :
    (v : Value) × (relayed "u2" session (accept_payload "u2") ≡ some v)
    × (step parse_nothing (accept_arrives "u1" "c1" 0 v) (at calling) ≡ at calling)
    × (step parse_nothing (decline_arrives v) (at calling) ≡ outgoing_declined "c1" (at calling))
unfolding run make_video_call session_created reduce
accept_taken_for_decline_example =
    accept_taken_for_decline parse_nothing "u1" listener session (at calling)
      (λ e. ground (arith, eq_iff "u1" "u2")) refl refl refl refl refl

abbrev cancel_listener : CancelListener
cancel_listener = record { hub = 0; caller_id = "u2"; call_id = "c2"; live = true }

abbrev microphone : MediaStream
microphone = record {
  id = 5;
  tracks = record { id = 6; is_video = false; stop_throws = false } ∷ [];
}

-- a browser with no camera
abbrev no_camera : Caps → MediaAnswer
no_camera c = if c.video then rejected "NotFoundError" else granted microphone

-- a callback that throws on each stream
abbrev closed_peer : Caps → Option String
closed_peer c = some "InvalidStateError"

-- The last rung is asked for although the microphone was granted, and refused.
try_steps_first_example :
    (try_steps no_camera closed_peer (caps true true ∷ caps false true ∷ caps true false ∷ []) none
      ≡ captured microphone (caps false true) ∷ refused (some "NotFoundError") ∷ [])
    × (requests no_camera closed_peer (caps true true ∷ caps false true ∷ caps true false ∷ [])
        ≡ caps true true ∷ caps false true ∷ caps true false ∷ [])
unfolding try_steps requests
try_steps_first_example =
    try_steps_first no_camera closed_peer (caps true true ∷ []) (caps true false ∷ [])
      (caps false true) microphone none refl refl

late_capture_kept_example :
    (share_media 7 false (captured microphone (caps false true)) (end_call (at accepted))).session
    ≡ record new_session { stream = some microphone }
late_capture_kept_example =
    late_capture_kept 7 false microphone (caps false true) (at accepted) (consistent accepted)
