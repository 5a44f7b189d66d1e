-- ===== src/Invite/Steps.antt =====
-- The events of a panel with its invitations: those of Room/Steps.antt, the clicks and the text of the
-- picker, the answers of the server, and what arrives for the user. The answer
-- with a number is that to the search with this number. The panel is unmounted by `unmounts` only.
use mattermost_plugin_voices.Base.{
  ℕ, String, Bool, Option, none, some, List, [], ◌∷◌, eqb, if◌then◌else◌,
}
use mattermost_plugin_voices.Users.{User}
use mattermost_plugin_voices.Voice.Session.{SwarmClose}
use mattermost_plugin_voices.Room.Steps
use mattermost_plugin_voices.Invite.Controller.{VoiceInvite}
use mattermost_plugin_voices.Invite.State.{Invites, Search}
use mattermost_plugin_voices.Invite.Search.{
  close_invite_picker, handle_toggle_invite_picker, handle_invite_search_change, search_answered,
  search_refused, handle_send_voice_invite, invite_sent, invite_not_sent,
}
use mattermost_plugin_voices.Invite.Incoming.{
  invite_arrives, expiry_fires, submit_voice_invite_decision, apply_voice_invite_decision,
  response_accepted, response_refused, unmount,
}

pub data Event : Type 0 where
  room : Steps.Event → Event
  toggles_picker closes_picker : Event
  types : (text : String) → Event
  answers refuses : (search_request_id : ℕ) → Event
  invites sent : User → Event
  not_sent : (unavailable : Bool) → Event
  arrives : (now : ℕ) → VoiceInvite → Event
  expires : Event
  submits : (decision : String) (now : ℕ) → Event
  decides accepted : VoiceInvite → (decision : String) → SwarmClose → Event
  refused : (unavailable : Bool) → Event
  unmounts : SwarmClose → Event

-- the search with a number
abbrev pub find_search : (search_request_id : ℕ) → List Search → Option Search
find_search n [] = none
find_search n (s ∷ searches) = if eqb s.search_request_id n then some s else find_search n searches

abbrev pub answer_search : List User → Option Search → Invites → Invites
answer_search users none v = v
answer_search users (some s) v = search_answered s users v

abbrev pub refuse_search : Option Search → Invites → Invites
refuse_search none v = v
refuse_search (some s) v = search_refused s v

-- `answer n` is what the server answers to the search with the number `n`.
module _ (user_id : String) (answer : ℕ → List User) where
  unfoldable pub step : Event → Invites → Invites
  unfolding search_answered search_refused
  step (room e) v =
      if Steps.is_unmounting e then v else record v { panel = Steps.step user_id e v.panel }
  step toggles_picker v = handle_toggle_invite_picker v
  step closes_picker v = close_invite_picker v
  step (types text) v = handle_invite_search_change text v
  step (answers n) v = answer_search (answer n) (find_search n v.searches) v
  step (refuses n) v = refuse_search (find_search n v.searches) v
  step (invites user) v = handle_send_voice_invite user v
  step (sent user) v = invite_sent user v
  step (not_sent unavailable) v = invite_not_sent unavailable v
  step (arrives now invite) v =
      if v.panel.is_unmounted then v else invite_arrives user_id now invite v
  step expires v = expiry_fires v
  step (submits decision now) v = submit_voice_invite_decision decision now v
  step (decides invite decision how) v =
      if v.panel.is_unmounted then v else apply_voice_invite_decision invite decision how v
  step (accepted invite decision how) v = response_accepted invite decision how v
  step (refused unavailable) v = response_refused unavailable v
  step (unmounts how) v = unmount how v

  unfoldable pub run : List Event → Invites → Invites
  unfolding step
  run [] v = v
  run (e ∷ es) v = run es (step e v)
