-- ===== src/Room/Picker.antt =====
-- The picker of users to invite, a part of the state of AudioCallPanel:
-- webapp/src/components/modals/audio_group_call/audio_group_call.jsx.
use mattermost_plugin_voices.Base.{ℕ, String, Bool, false, Option, none, List, []}
use mattermost_plugin_voices.Users.{User}

-- `request_id` is `inviteSearchRequestId`, `inviting` is `invitingUserId`, and `shown` is
-- `showInvitePicker`.
pub record Picker : Type 0 where
  pub request_id : ℕ
  pub shown : Bool
  pub search : String
  pub results : List User
  pub has_run : Bool
  pub pending : Bool
  pub error : String
  pub status : String
  pub inviting : Option String

abbrev pub new_picker : Picker
new_picker = record {
  request_id = 0;
  shown = false;
  search = "";
  results = [];
  has_run = false;
  pending = false;
  error = "";
  status = "";
  inviting = none;
}

-- what entering and leaving a room set of it
abbrev pub hide : Picker → Picker
hide k = record new_picker { request_id = k.request_id }
