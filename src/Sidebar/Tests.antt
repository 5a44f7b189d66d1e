-- ===== src/Sidebar/Tests.antt =====
-- A list of rooms seen from the room "r1", which the directory has lost.
use mattermost_plugin_voices.Base.{
  String, true, false, not, Option, some, none, List, [], ◌∷◌, ◌≡◌, refl, keep, present,
}
use mathlib.Core.List.{Option-to_list}
use mattermost_plugin_voices.Base.Text.{trim}
use mattermost_plugin_voices.Users.{User}
use mattermost_plugin_voices.Voice.Session.{at_once}
use mattermost_plugin_voices.Room.Panel.{Room, new_panel}
use mattermost_plugin_voices.Room.Joining.{handle_join_room}
use mattermost_plugin_voices.Room.Connecting.{bootstrap_directory, rooms_answered, can_delete_room}
use mattermost_plugin_voices.Room.Steps.{Event, mounts, joins, rooms_arrive, run}
use mattermost_plugin_voices.Invite.State.{new_invites}
use mattermost_plugin_voices.Sidebar.{
  Sidebar, panel_of, is_id, handle_room_row_enter, handle_room_row_leave, handle_toggle_room_menu,
  requested_name,
}
use mattermost_plugin_voices.Sidebar.View.{rows, settings, connection_hint}
use mattermost_plugin_voices.Sidebar.Rows.{active_ids, join_ids, ids, run-rows}

abbrev no_user : String → Option User
no_user id = none

abbrev room : String → Room
room id = record { room_id = id; name = "Room"; creator_id = "u1"; participants = [] }

abbrev events : List Event
events =
    mounts
    ∷ rooms_arrive "" (some (room "r1" ∷ room "r2" ∷ []))
    ∷ joins "r1" "Room" at_once
    ∷ rooms_arrive "" (some (room "r2" ∷ room "r3" ∷ []))
    ∷ []

abbrev sidebar : Sidebar
sidebar = record {
  invites = record new_invites { panel = run "u1" events new_panel };
  hovered_room_id = none;
  open_room_menu_id = none;
  show_create_input = true;
  new_channel_name_draft = " Standup ";
  listening = false;
}

rows_test :
    (active_ids (rows no_user "u1" "Ann" false sidebar) ≡ "r1" ∷ [])
    × (join_ids (rows no_user "u1" "Ann" false sidebar) ≡ "r2" ∷ "r3" ∷ [])
    × (connection_hint (panel_of sidebar) ≡ "Connecting…")
unfolding rows run handle_join_room bootstrap_directory rooms_answered connection_hint
rows_test = (refl, refl, refl)

menu_test :
    (settings "u1" false (handle_room_row_enter "r2" sidebar) (room "r2")
      ≡ some (record { hidden = false; opened = false }))
    × (settings "u1" false (handle_toggle_room_menu "r2" sidebar) (room "r2")
        ≡ some (record { hidden = false; opened = true }))
    × (settings "u9" false sidebar (room "r2") ≡ none)
    × (handle_room_row_leave "r2" (handle_toggle_room_menu "r2" sidebar)).open_room_menu_id ≡ none
    × (requested_name sidebar ≡ some "Standup")
unfolding settings handle_room_row_enter handle_toggle_room_menu handle_room_row_leave
    can_delete_room requested_name trim
menu_test = (refl, refl, refl, refl, refl)

run-rows_example :
    (active_ids (rows no_user "u1" "Ann" false sidebar)
      ≡ Option-to_list (panel_of sidebar).session.room_id)
    × (present (panel_of sidebar).session.room_id ≡ true)
    × (join_ids (rows no_user "u1" "Ann" false sidebar)
        ≡ keep
            (λ r. not (is_id (panel_of sidebar).session.room_id r))
            (ids (panel_of sidebar).channel_list))
unfolding run handle_join_room bootstrap_directory rooms_answered
run-rows_example = run-rows no_user "u1" "Ann" false events sidebar refl refl refl refl refl
