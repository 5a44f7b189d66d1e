-- ===== src/Popover.antt =====
-- The buttons of the profile popover: webapp/src/components/popover_video_call_button.jsx.
use mattermost_plugin_voices.Base.{
  String, Bool, true, false, not, ◌||◌, none, ◌≡◌, ◌≢◌, is_set, or_else, arith, eq_iff,
  if◌then◌else◌, ◌==◌,
}
use mattermost_plugin_voices.Call.World.{World, user_id}
use mattermost_plugin_voices.Call.Placing.{make_video_call}
use mattermost_plugin_voices.Call.Consistent.{Consistent}
use mattermost_plugin_voices.Call.Steps.{place, step}
use mattermost_plugin_voices.Call.Guards.{Placed, place-Placed}

-- the two properties with the id of the user, as hosts name them; a missing one is empty
abbrev pub target_id : (snake camel : String) → String
target_id snake camel = or_else camel snake

-- whether `render` shows the buttons
unfoldable pub is_rendered : (snake camel current_user_id : String) → Bool
is_rendered snake camel current_user_id =
    not (not (is_set (target_id snake camel)) || target_id snake camel == current_user_id)

-- `startCall`, without the host's `hide`
unfoldable pub start_call : (call_id snake camel : String) (audio_only : Bool) → World → World
unfolding make_video_call
start_call call_id snake camel audio_only w =
    if is_set (target_id snake camel)
    then make_video_call call_id (target_id snake camel) audio_only w
    else w

rendered-other :
    (snake camel user : String)
    → is_rendered snake camel user ≡ true
    → (is_set (target_id snake camel) ≡ true) × (target_id snake camel ≢ user)
unfolding is_rendered
rendered-other snake camel user r =
    (ground arith, λ e. ground (arith, eq_iff (target_id snake camel) user))

start_call_set :
    (c snake camel : String) (a : Bool) (w : World)
    → is_set (target_id snake camel) ≡ true
    → start_call c snake camel a w ≡ step (λ s. none) (place c (target_id snake camel) a) w
unfolding start_call step
start_call_set c snake camel a w s = ground arith

-- A button that is shown places its call: on a consistent page with a user and a configuration that
-- shows no call, a click rings the user of the popover, with the camera off exactly for the button of
-- a voice call.
pub start_call-Placed :
    (c snake camel : String) (a : Bool) (w : World)
    → Consistent w
    → w.slice.config_loaded ≡ true
    → is_set c ≡ true
    → is_set (user_id w.user) ≡ true
    → is_rendered snake camel (user_id w.user) ≡ true
    → w.slice.call_incoming ≡ false
    → w.slice.call_outgoing ≡ false
    → Placed c (target_id snake camel) a (start_call c snake camel a w)
start_call-Placed c snake camel a w h l sc su r i o =
    let (s, ne) = rendered-other snake camel (user_id w.user) r in
    rw (start_call_set c snake camel a w s)
      (place-Placed (λ s. none) c (target_id snake camel) a w h l sc s su ne i o)
