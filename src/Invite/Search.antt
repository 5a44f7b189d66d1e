-- ===== src/Invite/Search.antt =====
-- The picker of users to invite: `handleToggleInvitePicker`, `closeInvitePicker`,
-- `handleInviteSearchChange` and `handleSendVoiceInvite` of
-- webapp/src/components/modals/audio_group_call/audio_group_call.jsx. An answer of the server is an
-- event of its own.
use mattermost_plugin_voices.Base.{
  suc, String, Bool, true, false, not, ◌||◌, none, some, List, [], ◌∷◌, eqb, ltb, leb, is_some,
  is_set, or_else, if◌then◌else◌,
}
use Prim.Native.String.{◌++◌}
use mattermost_plugin_voices.Base.Text.{trim}
use mattermost_plugin_voices.Users.{User, user_display_name}
use mattermost_plugin_voices.Room.Effect.{fetch_rooms}
use mattermost_plugin_voices.Room.Panel
use mattermost_plugin_voices.Room.Panel.{Panel}
use mattermost_plugin_voices.Room.Picker.{Picker, hide}
use mattermost_plugin_voices.Invite.Controller.{
  search, is_current_search, can_send, text_length, search_users, send_invite,
}
use mattermost_plugin_voices.Invite.State.{Invites, Search, emit, with_picker}

unfoldable pub close_invite_picker : Invites → Invites
close_invite_picker v =
    with_picker (record (hide v.panel.picker) { request_id = suc v.panel.picker.request_id }) v

unfoldable pub handle_toggle_invite_picker : Invites → Invites
unfolding close_invite_picker
handle_toggle_invite_picker v =
    if not (is_some v.panel.active_room)
    then v
    else if v.panel.picker.shown
    then close_invite_picker v
    else with_picker
        (record (hide v.panel.picker) {
          request_id = suc v.panel.picker.request_id;
          shown = true;
          inviting = v.panel.picker.inviting;
        })
        v

-- the `setState` of `handleInviteSearchChange`, with the number of the search
abbrev pub typed : (text : String) → Picker → Picker
typed text k = record k {
  request_id = suc k.request_id;
  search = text;
  results = [];
  has_run = false;
  pending = leb 2 (text_length (trim text));
  error = "";
}

-- `handleInviteSearchChange` up to the answer
unfoldable pub handle_invite_search_change : (text : String) → Invites → Invites
unfolding search emit
handle_invite_search_change text v =
    let w = with_picker (typed text v.panel.picker) v in
    if ltb (text_length (trim text)) 2
    then w
    else let (c, searched) = search (trim text) w.controller in
      emit (if searched then search_users c.search_request_id (trim text) ∷ [] else []) (record w {
        controller = c;
        searches =
            record {
              request_id = w.panel.picker.request_id;
              search_request_id = c.search_request_id;
              term = trim text;
              searched = searched;
            }
            ∷ w.searches;
      })

-- the promise of a search is fulfilled
unfoldable pub search_answered : Search → (users : List User) → Invites → Invites
search_answered s users v =
    if v.panel.is_unmounted
      || not (eqb s.request_id v.panel.picker.request_id)
      || not (is_current_search s.search_request_id v.controller)
    then v
    else with_picker
        (record v.panel.picker {
          results = if s.searched then users else [];
          has_run = s.searched;
          pending = false;
        })
        v

-- the promise of a search is rejected
unfoldable pub search_refused : Search → Invites → Invites
search_refused s v =
    if v.panel.is_unmounted || not (eqb s.request_id v.panel.picker.request_id)
    then v
    else with_picker
        (record v.panel.picker {
          results = [];
          has_run = true;
          pending = false;
          error = "Could not search for users.";
        })
        v

-- `handleSendVoiceInvite` up to the answer
unfoldable pub handle_send_voice_invite : User → Invites → Invites
unfolding emit
handle_send_voice_invite user v = elim v.panel.active_room [
  | none ↦ v
  | some a ↦
      if not (is_set user.id)
      then v
      else emit (if can_send a.room_id user.id then send_invite a.room_id user.id ∷ [] else []) (
          with_picker (record v.panel.picker { inviting = some user.id; error = ""; status = "" })
            v)
]

-- the invitation was sent
unfoldable pub invite_sent : User → Invites → Invites
unfolding user_display_name
invite_sent user v =
    if v.panel.is_unmounted
    then v
    else with_picker
        (record v.panel.picker {
          inviting = none;
          status =
              "Invitation sent to "
              ++ (or_else (user_display_name (some user)) (or_else user.username "user") ++ ".");
        })
        v

-- It was not; `unavailable` says that the server answered 409.
unfoldable pub invite_not_sent : (unavailable : Bool) → Invites → Invites
unfolding Panel.emit
invite_not_sent unavailable v =
    if v.panel.is_unmounted
    then v
    else let w =
        with_picker
          (record v.panel.picker {
            inviting = none;
            error =
                if unavailable
                then "That user has already joined this voice channel."
                else "Could not send the invitation.";
          })
          v in
      if unavailable then record w { panel = Panel.emit (fetch_rooms ∷ []) w.panel } else w
