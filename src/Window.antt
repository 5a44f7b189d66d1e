-- ===== src/Window.antt =====
-- The window of a call: webapp/src/components/modals/start_video_call/start_video_call.jsx, with the
-- properties that index.js beside it gives it. Given is the host's store; the browser's fullscreen
-- element and the video elements are what the code reads and sets of them.
pub mod Framed
pub mod Shown
mod Tests
use Prim.Native.String.{◌++◌ as append}
use mattermost_plugin_voices.Base.{
  ℕ, String, Bool, true, false, not, ◌&&◌, ◌||◌, Option, none, some, List, [], ◌∷◌, ◌++◌, is_some,
  is_set, or_else, eqb, if◌then◌else◌,
}
use mattermost_plugin_voices.Base.Text.{trim}
use mattermost_plugin_voices.Users.{User}
use mattermost_plugin_voices.Media.{MediaStream}
use mattermost_plugin_voices.Call.Slice.{Slice}

-- `getPeerName`, of a user that may be missing
unfoldable pub peer_name : Option User → String
unfolding trim
peer_name none = ""
peer_name (some u) = or_else (trim (append u.first_name (append " " u.last_name))) u.username

-- `peerName` of `mapStateToProps`
unfoldable pub call_peer_name : (profiles : String → Option User) → Slice → String
unfolding peer_name
call_peer_name profiles s =
    if is_set s.call_peer_id then peer_name (profiles s.call_peer_id) else peer_name none

-- The four parts of the window that `render` chooses from.
pub data Screen : Type 0 where
  asking declined connecting active : Screen

abbrev pub when : Bool → Screen → List Screen
when b x = if b then x ∷ [] else []

-- `showActiveCall`
abbrev pub is_active_call : Slice → Bool
is_active_call s = s.call_outgoing && s.peer_accepted || s.call_incoming && s.call_accepted

-- What `render` shows of a slice, in the order of its conditions.
unfoldable pub screens : Slice → List Screen
screens s =
    if not s.modal_visible
    then []
    else when (not s.call_accepted && s.call_incoming) asking
      ++ (when
            (s.call_accepted
              && not (is_some s.call_peer_stream)
              && s.call_outgoing
              && s.outgoing_call_declined)
            declined
          ++ (when
                (s.call_accepted
                  && not (is_some s.call_peer_stream)
                  && not (s.call_outgoing && s.outgoing_call_declined))
                connecting
              ++ when (is_active_call s && is_some s.call_peer_stream) active))

-- The buttons of the window.
pub data Button : Type 0 where
  decline_call accept_call close cancel_call end_call toggle_camera toggle_microphone
        toggle_fullscreen :
      Button

-- the buttons of a part; `Cancel call` stands only while an outgoing call rings
unfoldable pub buttons : Slice → Screen → List Button
buttons s asking = decline_call ∷ accept_call ∷ []
buttons s declined = close ∷ []
buttons s connecting = if s.call_outgoing && not s.peer_accepted then cancel_call ∷ [] else []
buttons s active = toggle_fullscreen ∷ toggle_camera ∷ end_call ∷ toggle_microphone ∷ []

-- the title of a part that has one
unfoldable pub title : Slice → Screen → String
title s asking = if s.call_audio_only then "Incoming voice call" else "Incoming video call"
title s declined = "Call declined"
title s connecting = if s.call_outgoing && not s.peer_accepted then "Ringing…" else "Connecting…"
title s active = ""

-- What the component keeps: its state, and the `srcObject` of each video element that is there.
pub record Stage : Type 0 where
  pub fullscreen : Bool
  pub remote_video : Option (Option ℕ)
  pub self_video : Option (Option ℕ)

pub data Effect : Type 0 where
  request_fullscreen exit_fullscreen : Effect

-- whether two streams that may be missing are the same object
abbrev pub same_stream : Option MediaStream → Option MediaStream → Bool
same_stream none none = true
same_stream (some a) (some b) = eqb a.id b.id
same_stream _ _ = false

-- the element shows the stream
abbrev pub is_source : Option ℕ → ℕ → Bool
is_source none id = false
is_source (some i) id = eqb i id

-- `attachStream`, of an element that may be missing
unfoldable pub attach_stream :
    (el : Option (Option ℕ)) (stream previous : Option MediaStream) → Option (Option ℕ)
attach_stream none stream previous = none
attach_stream (some src) none previous = some src
attach_stream (some src) (some m) previous =
    if same_stream previous (some m) && is_source src m.id then some src else some (some m.id)

-- `exitFullscreen`; `element` says that the document is in fullscreen, and `can_exit` that it can
-- leave it.
abbrev pub leave_fullscreen : (element can_exit : Bool) → List Effect
leave_fullscreen element can_exit = if element && can_exit then exit_fullscreen ∷ [] else []

-- `toggleFullscreen`; `stage` says that the element of the call is there.
unfoldable pub toggle_stage : (stage element can_exit can_request : Bool) → List Effect
toggle_stage stage element can_exit can_request =
    if not stage
    then []
    else if element
    then leave_fullscreen element can_exit
    else if can_request
    then request_fullscreen ∷ []
    else []

-- `handleFullscreenChange`
abbrev pub fullscreen_changed : (element : Bool) → Stage → Stage
fullscreen_changed element s = record s { fullscreen = element }

-- `componentDidUpdate`, from the slice before to the slice now
unfoldable pub did_update :
    (before now : Slice) (element can_exit : Bool) → Stage → Stage × List Effect
unfolding attach_stream
did_update before now element can_exit s = (
  record s {
    remote_video = attach_stream s.remote_video now.call_peer_stream before.call_peer_stream;
    self_video = attach_stream s.self_video now.self_stream before.self_stream;
  },
  if before.modal_visible && not now.modal_visible then leave_fullscreen element can_exit else [],
)
