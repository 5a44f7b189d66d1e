-- ===== src/Startup/Registration.antt =====
-- What the plugin registers with the host when it is loaded: `safely` and `initialize` of
-- webapp/src/index.js. Which registrations throw is the host's.
use mattermost_plugin_voices.Base.{Bool, List, [], ◌∷◌, ◌++◌, ◌≡◌, refl, if◌then◌else◌}

pub data Registration : Type 0 where
  reducer main_menu_action channel_header_menu_action audio_button video_button popover_actions :
      Registration
  start_video_call video_call_picker left_sidebar_header call_post voice_invite_post : Registration
  voice_presence_events voice_invite_events load_config : Registration

-- the registrations of `initialize`, in their order
abbrev pub registrations : List Registration
registrations =
    reducer ∷ main_menu_action ∷ channel_header_menu_action ∷ audio_button ∷ video_button
    ∷ popover_actions ∷ start_video_call ∷ video_call_picker ∷ left_sidebar_header ∷ call_post
    ∷ voice_invite_post ∷ voice_presence_events ∷ voice_invite_events ∷ load_config ∷ []

-- The registrations that were tried, and those whose error was logged, in their order.
pub record Plugin : Type 0 where
  pub tried : List Registration
  pub failed : List Registration

module _ (throws : Registration → Bool) where
  -- `safely`
  unfoldable pub safely : Registration → Plugin → Plugin
  safely r p = record {
    tried = p.tried ++ (r ∷ []);
    failed = if throws r then p.failed ++ (r ∷ []) else p.failed;
  }

  unfoldable pub register_all : List Registration → Plugin → Plugin
  unfolding safely
  register_all [] p = p
  register_all (r ∷ rs) p = register_all rs (safely r p)

  -- `initialize`
  unfoldable pub initialize : Plugin
  unfolding register_all
  initialize = register_all registrations (record { tried = []; failed = [] })

  -- Every registration is tried, in order, whichever of the others throw.
  pub initialize-tries : initialize.tried ≡ registrations
  unfolding initialize
  initialize-tries = refl
