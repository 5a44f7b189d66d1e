-- ===== src/Invite/State.antt =====
-- The part of AudioCallPanel that has to do with invitations:
-- webapp/src/components/modals/audio_group_call/audio_group_call.jsx.
use mattermost_plugin_voices.Base.{ℕ, String, Bool, false, Option, none, List, [], push}
use mattermost_plugin_voices.Room.Panel.{Panel, new_panel}
use mattermost_plugin_voices.Room.Picker.{Picker}
use mattermost_plugin_voices.Invite.Controller.{Controller, Effect, VoiceInvite, new_controller}

-- A search whose promise waits: what the functions given to it capture, and whether the server was
-- asked.
pub record Search : Type 0 where
  pub request_id : ℕ
  pub search_request_id : ℕ
  pub term : String
  pub searched : Bool

pub record Invites : Type 0 where
  pub panel : Panel
  pub controller : Controller
  pub searches : List Search
  pub incoming : Option VoiceInvite
  pub response_pending : Bool
  pub response_error : String
  pub log : List Effect

abbrev pub new_invites : Invites
new_invites = record {
  panel = new_panel;
  controller = new_controller;
  searches = [];
  incoming = none;
  response_pending = false;
  response_error = "";
  log = [];
}

unfoldable pub emit : List Effect → Invites → Invites
emit es v = record v { log = push es v.log }

-- a method of the invitation controller
unfoldable pub control : Controller × List Effect → Invites → Invites
unfolding emit
control (c, effects) v = emit effects (record v { controller = c })

-- a `setState` that sets only fields of the picker
abbrev pub with_picker : Picker → Invites → Invites
with_picker k v = record v { panel = record v.panel { picker = k } }
