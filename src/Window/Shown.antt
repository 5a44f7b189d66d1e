-- ===== src/Window/Shown.antt =====
-- What the window of a call shows after any events:
-- webapp/src/components/modals/start_video_call/start_video_call.jsx on webapp/src/reducers/index.js.
use mattermost_plugin_voices.Base.{
  String, false, not, ◌&&◌, Option, none, some, List, ◌≡◌, is_some, arith, if◌then◌else◌,
}
use mathlib.Core.List.{Option-to_list}
use mattermost_plugin_voices.Base.Js.{Value}
use mattermost_plugin_voices.Users.{User}
use mattermost_plugin_voices.Call.Slice.{Slice}
use mattermost_plugin_voices.Call.World.{new_world}
use mattermost_plugin_voices.Call.Invariance.{run-Consistent}
use mattermost_plugin_voices.Call.Steps.{Event, run}
use mattermost_plugin_voices.Window.{Screen, asking, declined, connecting, active, screens}
use mattermost_plugin_voices.Window.Framed.{Framed, new_world-Framed, run-Framed}

-- The part that a call is to see, decided from its direction on: a caller sees the active call once
-- the peer has accepted and streams, and nothing when the stream is there before the peer accepts.
unfoldable pub chosen : Slice → Option Screen
chosen s =
    if s.call_outgoing
    then (if is_some s.call_peer_stream
        then (if s.peer_accepted then some active else none)
        else if s.outgoing_call_declined
        then some declined
        else some connecting)
    else if not s.call_incoming
    then none
    else if not s.call_accepted
    then some asking
    else if is_some s.call_peer_stream
    then some active
    else some connecting

screens-chosen :
    (s : Slice)
    → Framed s
    → (s.call_incoming && s.call_outgoing) ≡ false
    → screens s ≡ Option-to_list (chosen s)
unfolding screens chosen Option-to_list
screens-chosen s f x = ground (arith, f)

-- After any events from a fresh page the independent conditions of the window show what one decision
-- picks, from the direction of the call on, and so never two parts at once. The window is blank
-- during a call in one case: an outgoing call that the peer has not accepted while a stream of a peer
-- is there.
pub run-screens :
    (parse : String → Option Value) (user : Option User) (profiles : String → Option User)
    (es : List Event)
    → let s = (run parse es (new_world user profiles)).slice in
      screens s ≡ Option-to_list (chosen s)
run-screens parse user profiles es =
    screens-chosen (run parse es (new_world user profiles)).slice
      (run-Framed parse es (new_world user profiles) (new_world-Framed user profiles))
      (run-Consistent parse user profiles es).exclusive
