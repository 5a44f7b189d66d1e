-- ===== src/Sidebar.antt =====
-- The list of voice rooms: what the mouse opens and hides in
-- webapp/src/components/modals/audio_group_call/audio_group_call.jsx.
pub mod View
pub mod Rows
mod Tests
use mattermost_plugin_voices.Base.{
  ℕ, suc, String, Bool, true, false, not, ◌&&◌, ◌||◌, Option, none, some, List, [], ◌∷◌, ◌++◌, any,
  map, is_some, is_set, or_else, ltb, if◌then◌else◌, ◌==◌,
}
use mattermost_plugin_voices.Base.Text.{trim}
use mattermost_plugin_voices.Users.{User, user_display_name}
use mattermost_plugin_voices.Voice.Effect.{PeerView, PeerRecord}
use mattermost_plugin_voices.Voice.Session.{SwarmClose}
use mattermost_plugin_voices.Room.Picker.{Picker}
use mattermost_plugin_voices.Room.Panel.{Panel, ActiveRoom, Room, is_in, microphone_on}
use mattermost_plugin_voices.Room.Joining.{handle_delete_room}
use mattermost_plugin_voices.Room.Connecting.{room_created, can_delete_room}
use mattermost_plugin_voices.Invite.Controller.{text_length}
use mattermost_plugin_voices.Invite.Eligible.{eligible_invite_users}
use mattermost_plugin_voices.Invite.State.{Invites, with_picker}
use mattermost_plugin_voices.Invite.Search.{close_invite_picker}

-- The panel with its invitations, and the rest of its state; `listening` is
-- `invitePickerOutsideListening`.
pub record Sidebar : Type 0 where
  pub invites : Invites
  pub hovered_room_id : Option String
  pub open_room_menu_id : Option String
  pub show_create_input : Bool
  pub new_channel_name_draft : String
  pub listening : Bool

abbrev pub panel_of : Sidebar → Panel
panel_of s = s.invites.panel

abbrev pub with_panel : Panel → Sidebar → Sidebar
with_panel p s = record s { invites = record s.invites { panel = p } }

-- `state.hoveredRoomId === roomId`
abbrev pub is_id : Option String → String → Bool
is_id none r = false
is_id (some s) r = s == r

abbrev pub unless_id : Option String → String → Option String
unless_id o r = if is_id o r then none else o

unfoldable pub handle_room_row_enter : (room_id : String) → Sidebar → Sidebar
handle_room_row_enter r s = record s { hovered_room_id = some r }

unfoldable pub handle_room_row_leave : (room_id : String) → Sidebar → Sidebar
handle_room_row_leave r s = record s {
  hovered_room_id = unless_id s.hovered_room_id r;
  open_room_menu_id = unless_id s.open_room_menu_id r;
}

-- `stays` says that the row has what takes the focus.
unfoldable pub handle_room_row_blur : (room_id : String) (stays : Bool) → Sidebar → Sidebar
unfolding handle_room_row_leave
handle_room_row_blur r stays s = if stays then s else handle_room_row_leave r s

unfoldable pub handle_toggle_room_menu : (room_id : String) → Sidebar → Sidebar
handle_toggle_room_menu r s = record s {
  open_room_menu_id = if is_id s.open_room_menu_id r then none else some r;
  invites = with_picker (record (panel_of s).picker { shown = false }) s.invites;
}

unfoldable pub handle_delete_room_from_menu : (room_id : String) → SwarmClose → Sidebar → Sidebar
unfolding handle_delete_room
handle_delete_room_from_menu r how s =
    with_panel (handle_delete_room r how (panel_of s)) (record s { open_room_menu_id = none })

unfoldable pub handle_toggle_create : Sidebar → Sidebar
handle_toggle_create s = record s {
  show_create_input = not s.show_create_input;
  new_channel_name_draft = if s.show_create_input then "" else s.new_channel_name_draft;
}

-- the name that `handleCreateChannel` asks the server to create, if any
unfoldable pub requested_name : Sidebar → Option String
unfolding trim
requested_name s =
    if not (is_set (trim s.new_channel_name_draft))
    then none
    else some (trim s.new_channel_name_draft)

-- `handleCreateChannel` once the server has answered
unfoldable pub channel_created :
    (room_id name : String) → Option (List Room) → SwarmClose → Sidebar → Sidebar
unfolding room_created
channel_created r name rooms how s =
    let t = with_panel (room_created r name rooms how (panel_of s)) s in
    if is_some rooms && not (panel_of s).is_unmounted
    then record t { show_create_input = false; new_channel_name_draft = "" }
    else t

-- `handleInvitePickerOutsideClick`; `within` says that the click is on the picker or its button.
unfoldable pub handle_invite_picker_outside_click : (within : Bool) → Sidebar → Sidebar
unfolding close_invite_picker
handle_invite_picker_outside_click within s =
    if not (panel_of s).picker.shown || within
    then s
    else record s { invites = close_invite_picker s.invites }

-- `removeInvitePickerOutsideListener`
abbrev pub remove_outside_listener : Sidebar → Sidebar
remove_outside_listener s = if not s.listening then s else record s { listening = false }

-- `syncInvitePickerOutsideListener`, which every update of the component calls
unfoldable pub sync_outside_listener : Sidebar → Sidebar
sync_outside_listener s =
    if (panel_of s).picker.shown && not s.listening
    then record s { listening = true }
    else if not (panel_of s).picker.shown && s.listening
    then remove_outside_listener s
    else s
