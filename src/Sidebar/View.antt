-- ===== src/Sidebar/View.antt =====
-- What render, renderActiveRoom, renderVoiceControls, renderInvitePicker and renderRoster of
-- webapp/src/components/modals/audio_group_call/audio_group_call.jsx show of the state of the panel.
use mattermost_plugin_voices.Base.{
  ℕ, String, Bool, false, not, ◌&&◌, Option, none, some, List, [], ◌∷◌, ◌++◌, any, map, is_set,
  or_else, ltb, if◌then◌else◌, ◌==◌,
}
use mattermost_plugin_voices.Base.Text.{trim}
use mattermost_plugin_voices.Users.{User, user_display_name}
use mattermost_plugin_voices.Voice.Effect.{PeerRecord}
use mattermost_plugin_voices.Room.Picker.{Picker}
use mattermost_plugin_voices.Room.Panel.{Panel, ActiveRoom, Room, is_in, microphone_on}
use mattermost_plugin_voices.Room.Connecting.{can_delete_room}
use mattermost_plugin_voices.Invite.Controller.{text_length}
use mattermost_plugin_voices.Invite.Eligible.{eligible_invite_users}
use mattermost_plugin_voices.Sidebar.{Sidebar, panel_of, is_id}

-- The button of the settings of a row, and its menu.
pub record Settings : Type 0 where
  pub hidden : Bool
  pub opened : Bool

-- the settings of a row, for those who may delete its room
unfoldable pub settings :
    (user_id : String) (is_system_admin : Bool) → Sidebar → Room → Option Settings
unfolding can_delete_room
settings user_id is_system_admin s r =
    if not (can_delete_room user_id is_system_admin r)
    then none
    else some (record {
      hidden = not (is_id s.hovered_room_id r.room_id) && not (is_id s.open_room_menu_id r.room_id);
      opened = is_id s.open_room_menu_id r.room_id;
    })

-- `connectionHint`
unfoldable pub connection_hint : Panel → String
connection_hint p =
    if p.swarm_initialized
    then ""
    else if p.initialized && not p.audio_enabled
    then "No microphone available — you can listen, but not speak."
    else "Connecting…"

pub record Entry : Type 0 where
  pub key : String
  pub name : String
  pub audio_on : Bool

-- `peerDisplayName`
unfoldable pub peer_display_name :
    (profiles : String → Option User) (id : String) → PeerRecord → String
unfolding user_display_name
peer_display_name profiles id peer =
    or_else (user_display_name (profiles (or_else peer.view.user_id id)))
      (or_else peer.view.display_name (or_else peer.view.username "Unknown user"))

-- the peers that the panel hears
abbrev pub peer_entries :
    (profiles : String → Option User) (records : ℕ → PeerRecord) → List (String × ℕ) → List Entry
peer_entries profiles records [] = []
peer_entries profiles records ((id, n) ∷ peers) =
    record {
      key = id;
      name = peer_display_name profiles id (records n);
      audio_on = (records n).view.audio_on;
    }
    ∷ peer_entries profiles records peers

-- the roster of the row of the user's own room
unfoldable pub active_roster :
    (profiles : String → Option User) (self_name : String) → Panel → List Entry
unfolding peer_display_name
active_roster profiles self_name p =
    (if p.swarm_initialized
      then record { key = "self"; name = self_name; audio_on = microphone_on p } ∷ []
      else [])
    ++ peer_entries profiles p.session.records p.session.peers

-- The controls of the user's own room.
pub record VoiceControls : Type 0 where
  pub microphone_title : String
  pub speaker_title : String
  pub is_slashed : Bool

-- `renderVoiceControls`
unfoldable pub voice_controls : Panel → VoiceControls
voice_controls p = record {
  microphone_title = if p.audio_on then "Disable microphone" else "Enable microphone";
  speaker_title =
      if p.speaker_on then "Disable voice channel audio" else "Enable voice channel audio";
  is_slashed = not p.speaker_on;
}

-- A user whom the picker lists, with the button that invites.
pub record InviteRow : Type 0 where
  pub user_id : String
  pub name : String
  pub is_sending : Bool
  pub is_disabled : Bool

-- What the picker of users shows below its box.
pub data InviteList : Type 0 where
  searching : InviteList
  says : String → InviteList
  lists : List InviteRow → InviteList

pub record InviteView : Type 0 where
  pub list : InviteList
  pub error : String
  pub status : String

-- `Boolean(invitingUserId)`
abbrev pub is_inviting : Picker → Bool
is_inviting k = elim k.inviting [ none ↦ false | some id ↦ is_set id ]

abbrev pub invite_row : Picker → User → InviteRow
invite_row k u = record {
  user_id = u.id;
  name = or_else (user_display_name (some u)) u.username;
  is_sending = is_id k.inviting u.id;
  is_disabled = is_inviting k;
}

abbrev pub invite_list : Picker → List User → InviteList
invite_list k [] =
    if ltb (text_length (trim k.search)) 2
    then says "Type at least two characters to search for more users."
    else says "No available users found."
invite_list k (u ∷ users) = lists (map (invite_row k) (u ∷ users))

-- `renderInvitePicker`, with the order and the letters that the list of users takes
unfoldable pub invite_picker :
    (lower : String → String) (after : User → User → Bool) (user_id : String) (profiles : List User)
    → Panel
    → Option InviteView
unfolding trim user_display_name eligible_invite_users
invite_picker lower after user_id profiles p =
    if not p.picker.shown
    then none
    else some (record {
      list =
          if p.picker.pending
          then searching
          else invite_list p.picker (
              eligible_invite_users lower after user_id p.active_room p.channel_list profiles
                p.picker);
      error = p.picker.error;
      status = p.picker.status;
    })

-- A row of the list: that of the user's own room, with its controls and the button that leaves it,
-- and one with the button that joins its room.
pub data Row : Type 0 where
  active_row :
      (room : Room) → VoiceControls → Option Settings → (hint : String) (roster : List Entry) → Row
  join_row : (room : Room) → Option Settings → Row

-- `visibleRooms`
unfoldable pub visible_rooms : Option ActiveRoom → List Room → List Room
visible_rooms none rooms = rooms
visible_rooms (some a) rooms =
    if any (λ r. r.room_id == a.room_id) rooms
    then rooms
    else rooms
      ++ (record { room_id = a.room_id; name = a.name; creator_id = ""; participants = [] } ∷ [])

unfoldable pub row :
    (profiles : String → Option User) (user_id self_name : String) (is_system_admin : Bool)
    → Sidebar
    → Room
    → Row
unfolding settings connection_hint active_roster voice_controls
row profiles user_id self_name is_system_admin s r =
    let p = panel_of s in
    if is_in p.active_room r.room_id
    then active_row r (voice_controls p) (settings user_id is_system_admin s r) (connection_hint p)
        (active_roster profiles self_name p)
    else join_row r (settings user_id is_system_admin s r)

-- the rows that `render` lists
unfoldable pub rows :
    (profiles : String → Option User) (user_id self_name : String) (is_system_admin : Bool)
    → Sidebar
    → List Row
unfolding visible_rooms row
rows profiles user_id self_name is_system_admin s =
    map (row profiles user_id self_name is_system_admin s)
      (visible_rooms (panel_of s).active_room (panel_of s).channel_list)

-- what the list says when it has no row
unfoldable pub empty_hint : (is_system_admin : Bool) → Sidebar → String
unfolding visible_rooms
empty_hint is_system_admin s =
    elim (visible_rooms (panel_of s).active_room (panel_of s).channel_list) [
      | [] ↦
          if s.show_create_input
          then ""
          else if is_system_admin
          then "No channels yet — create one and everyone on this server will see it."
          else "No voice channels yet. A system administrator can create one."
      | _ ∷ _ ↦ ""
    ]
