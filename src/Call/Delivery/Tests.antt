-- ===== src/Call/Delivery/Tests.antt =====
-- Two concrete pages: "u1" calls, and the call rings on the page of "u2".
use mattermost_plugin_voices.Base.{
  String, true, false, Option, none, some, List, [], ◌∷◌, ◌≡◌, refl,
}
use mattermost_plugin_voices.Base.Js.{Value, str, num, obj, field, end}
use mattermost_plugin_voices.Users.{User}
use mattermost_plugin_voices.Signal.{SignalSession, relayed}
use mattermost_plugin_voices.Call.Slice.{Config}
use mattermost_plugin_voices.Call.Effect.{broadcast}
use mattermost_plugin_voices.Call.Reducers.{reduce}
use mattermost_plugin_voices.Call.Listeners.{DeclineListener, CancelListener}
use mattermost_plugin_voices.Call.World.{World, new_world, user_id}
use mattermost_plugin_voices.Call.Placing.{make_video_call, session_created}
use mattermost_plugin_voices.Call.Answering.{inbox_message}
use mattermost_plugin_voices.Call.Ending.{cancel_message, decline_message, reject_call}
use mattermost_plugin_voices.Call.Ended.{Ended}
use mattermost_plugin_voices.Call.Consistent.{Consistent}
use mattermost_plugin_voices.Call.Steps.{
  Event, config_loaded, place, session_answer, inbox, end_click, cancel_arrives, decline_arrives,
  step, run,
}
use mattermost_plugin_voices.Call.Invariance.{run-Consistent}
use mattermost_plugin_voices.Call.Delivery.{
  Logged, RingsOut, RingsIn, cancel_ends_ring, decline_ends_call,
}

abbrev parse_nothing : String → Option Value
parse_nothing s = none

abbrev user : String → User
user id = record {
  id = id;
  username = id;
  first_name = "";
  last_name = "";
  is_bot = false;
  deleted = false;
}

abbrev profiles : String → Option User
profiles id = some (user id)

abbrev config : Config
config = record {
  stun_server = "";
  turn_server = "";
  turn_server_username = "";
  turn_server_credential = "";
}

abbrev invite : Value
invite = obj (
    field "type" (str "invite") (
      field "version" (num 1) (
        field "callId" (str "c1")
          (field "sessionId" (str "s1") (field "senderId" (str "u1") end)))))

abbrev page : String → List Event → World
page id es = run parse_nothing es (new_world (some (user id)) profiles)

abbrev caller : World
caller =
    page "u1"
      (config_loaded config ∷ place "c1" "u2" true ∷ session_answer "c1" "u2" true (some "s1") ∷ [])

abbrev callee : World
callee = page "u2" (config_loaded config ∷ inbox invite ∷ [])

consistent : (id : String) (es : List Event) → Consistent (page id es)
consistent id es = run-Consistent parse_nothing (some (user id)) profiles es

caller-RingsOut : RingsOut "c1" caller
unfolding run make_video_call session_created reduce
caller-RingsOut = record {
  outgoing = refl;
  waiting = refl;
  callee = refl;
  user = refl;
  signal = refl;
  call = refl;
  call_set = refl;
}

callee-RingsIn : RingsIn callee
unfolding run inbox_message reduce
callee-RingsIn = record { incoming = refl; caller = refl; user = refl; signal = refl; call = refl }

abbrev session : SignalSession
session = record { version = 1; session_id = "s1"; call_id = "c1" }

abbrev cancel : CancelListener
cancel = record { hub = 0; caller_id = "u1"; call_id = "c1"; live = true }

abbrev decline : DeclineListener
decline = record { hub = 0; callee_id = "u2"; call_id = "c1"; live = true }

cancel_ends_ring_example :
    Logged
      (broadcast caller.next (cancel_message (user_id caller.user) "c1"))
      (step parse_nothing end_click caller).log
    × ((m : Value) × (relayed
            (user_id caller.user)
            session
            (cancel_message (user_id caller.user) "c1")
          ≡ some m)
        × Ended (step parse_nothing (cancel_arrives m) callee))
unfolding run make_video_call session_created inbox_message reduce
cancel_ends_ring_example =
    cancel_ends_ring parse_nothing "c1" session cancel caller callee caller-RingsOut
      (consistent "u2" (config_loaded config ∷ inbox invite ∷ [])) refl refl refl refl refl refl

decline_ends_call_example :
    Logged (broadcast callee.next (decline_message (user_id callee.user))) (reject_call callee).log
    × ((m : Value) × (relayed (user_id callee.user) session (decline_message (user_id callee.user))
          ≡ some m)
        × Ended (step parse_nothing (decline_arrives m) caller))
unfolding run make_video_call session_created inbox_message reduce
decline_ends_call_example =
    decline_ends_call parse_nothing session decline callee caller callee-RingsIn
      (consistent "u1" (
        config_loaded config
        ∷ place "c1" "u2" true
        ∷ session_answer "c1" "u2" true (some "s1")
        ∷ []))
      refl refl refl refl refl
