-- ===== src/Invite/Tests.antt =====
-- A panel in a room whose user looks for another, and invitations that overlap: the theorems at them.
use mattermost_plugin_voices.Base.{
  ℕ, true, false, not, ◌&&◌, ◌||◌, none, some, List, [], ◌∷◌, ◌≡◌, refl, eqb, is_set, ◌==◌,
  if◌then◌else◌,
}
use mattermost_plugin_voices.Base.Text.{trim}
use mattermost_plugin_voices.Users.{User, user_display_name}
use mattermost_plugin_voices.Voice.Session.{at_once}
use mattermost_plugin_voices.Room.Panel.{Room}
use mattermost_plugin_voices.Room.Steps
use mattermost_plugin_voices.Room.Picker.{new_picker}
use mattermost_plugin_voices.Invite.Controller.{VoiceInvite}
use mattermost_plugin_voices.Invite.State.{Invites, new_invites}
use mattermost_plugin_voices.Room.Joining.{handle_join_room}
use mattermost_plugin_voices.Invite.Search.{
  handle_invite_search_change, handle_toggle_invite_picker,
}
use mattermost_plugin_voices.Invite.Incoming.{invite_arrives, response_accepted, response_refused}
use mattermost_plugin_voices.Invite.Steps.{
  Event, room, toggles_picker, types, answers, arrives, expires, run,
}
use mattermost_plugin_voices.Invite.Found.{Shows, run-Shows}
use mattermost_plugin_voices.Invite.Offered.{Offers, timed, run-Offers}
use mattermost_plugin_voices.Invite.Overlap.{overlapping, late_refusal_drops}
use mattermost_plugin_voices.Invite.Eligible.{includes, eligible_invite_users}
use mattermost_plugin_voices.Invite.Listed.{
  find_user, are_distinct, only, is_present, find-eligible,
}

abbrev bob : User
bob = record {
  id = "u2";
  username = "bob";
  first_name = "Bob";
  last_name = "Ross";
  is_bot = false;
  deleted = false;
}

abbrev bobby : User
bobby = record bob { id = "u3"; username = "bobby"; first_name = "Bobby" }

-- what the server answers: to the first search both, to the second one
abbrev found : ℕ → List User
found n = if eqb n 1 then bob ∷ bobby ∷ [] else bobby ∷ []

abbrev events : List Event
events =
    room (Steps.joins "r1" "One" at_once)
    ∷ toggles_picker
    ∷ types "bob"
    ∷ types "bobb"
    ∷ answers 2
    ∷ answers 1
    ∷ []

-- The answer to the first search comes last and is dropped.
late_answer : (run "u1" found events new_invites).panel.picker.results ≡ bobby ∷ []
unfolding run handle_invite_search_change trim handle_toggle_invite_picker Steps.step
    handle_join_room
late_answer = refl

run-Shows_example : Shows "u1" found (run "u1" found events new_invites)
run-Shows_example = run-Shows "u1" found events

abbrev first_invite : VoiceInvite
first_invite = record {
  object = 1;
  invite_id = "i1";
  post_id = "p1";
  room_id = "r2";
  room_name = "Two";
  inviter_id = "u2";
  expires_at = some 50;
}

abbrev second_invite : VoiceInvite
second_invite = record first_invite {
  object = 2;
  invite_id = "i2";
  post_id = "p2";
  inviter_id = "u3";
}

abbrev offered : Invites
offered = run "u1" found (arrives 10 first_invite ∷ []) new_invites

run-Offers_example :
    Offers (
      run "u1" found
        (arrives 10 first_invite ∷ arrives 20 second_invite ∷ expires ∷ [])
        new_invites)
run-Offers_example =
    run-Offers "u1" found (arrives 10 first_invite ∷ arrives 20 second_invite ∷ expires ∷ [])

late_refusal_drops_example :
    let w = overlapping "u1" "declined" 20 30 second_invite offered in
    (w.incoming ≡ some second_invite)
    × ((response_accepted first_invite "declined" at_once w).incoming ≡ some second_invite)
    × (timed (response_accepted first_invite "declined" at_once w).controller.expiry_timer
        ≡ some second_invite)
    × ((response_refused true w).incoming ≡ none)
    × (timed (response_refused true w).controller.expiry_timer ≡ none)
unfolding run invite_arrives
late_refusal_drops_example =
    late_refusal_drops "u1" "declined" 20 30 at_once first_invite second_invite offered refl refl
      refl

abbrev directory : List Room
directory =
    record { room_id = "r1"; name = "One"; creator_id = "u1"; participants = "u1" ∷ "u2" ∷ [] } ∷ []

-- Of the store's users the picker lists bobby, since bob is in the room.
find-eligible_example :
    let users =
      eligible_invite_users
        (λ s. s)
        (λ a b. false)
        "u1"
        (some (record { room_id = "r1"; name = "One" }))
        directory
        (bob ∷ bobby ∷ bobby ∷ [])
        new_picker in
    let fits = λ (u : User).
      not (u.id == "u1")
      && not u.deleted
      && not u.is_bot
      && not (is_present u.id (some (record { room_id = "r1"; name = "One" })) directory)
      && (not (is_set "") || includes "" (user_display_name (some u)) || includes "" u.username) in
    (find_user "u3" users ≡ only fits (find_user "u3" (bob ∷ bobby ∷ bobby ∷ [])))
    × (are_distinct users ≡ true)
unfolding trim
find-eligible_example =
    find-eligible (λ s. s) (λ a b. false) "u1" "u3" (some (record { room_id = "r1"; name = "One" }))
      directory (bob ∷ bobby ∷ bobby ∷ []) new_picker refl
