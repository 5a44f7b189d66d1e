-- ===== src/Invite/Found.antt =====
-- The events of Invite/Steps.antt against Invite/Latest.antt.
use mattermost_plugin_voices.Base.{
  ℕ, String, Bool, true, false, not, ◌||◌, some, List, [], ◌∷◌, ◌≡◌, refl, eqb, ltb, is_some, arith,
  inl, inr, Option-cases, Bool-cases, if◌then◌else◌,
}
use mattermost_plugin_voices.Base.Text.{trim}
use mattermost_plugin_voices.Users.{User}
use mattermost_plugin_voices.Voice.Session.{SwarmClose}
use mattermost_plugin_voices.Room.Joining
use mattermost_plugin_voices.Room.Joining.{handle_join_room}
use mattermost_plugin_voices.Room.Steps.{is_unmounting}
use mattermost_plugin_voices.Room.Keeping.{Keeps, step-Kept, join-Kept, unmount-Keeps}
use mattermost_plugin_voices.Invite.Controller.{
  Controller, VoiceInvite, clear_expiry, search, text_length,
}
use mattermost_plugin_voices.Invite.State.{Invites, Search, new_invites, emit, control}
use mattermost_plugin_voices.Invite.Search.{
  search_answered, search_refused, handle_invite_search_change, close_invite_picker,
  handle_toggle_invite_picker, handle_send_voice_invite, invite_sent, invite_not_sent,
}
use mattermost_plugin_voices.Invite.Incoming.{
  invite_arrives, expiry_fires, submit_voice_invite_decision, apply_voice_invite_decision,
  response_accepted, response_refused, unmount, settle,
}
use mattermost_plugin_voices.Invite.Steps.{
  Event, room, toggles_picker, closes_picker, types, answers, refuses, invites, sent, not_sent,
  arrives, expires, submits, decides, accepted, refused, unmounts, find_search, answer_search,
  refuse_search, step, run,
}
use mattermost_plugin_voices.Invite.Latest.{
  IsLatest, Keeps-IsLatest, fresh-IsLatest, searched-IsLatest, answered-IsLatest, refused-IsLatest,
  bumped-IsLatest,
}

-- What leaves the searches alone.
record Leaves (v w : Invites) : Type 0 where
  picker : Keeps v.panel.picker w.panel.picker
  last : w.controller.search_request_id ≡ v.controller.search_request_id
  searches : w.searches ≡ v.searches

arrives-Leaves :
    (u : String) (now : ℕ) (i : VoiceInvite) (v : Invites) → Leaves v (invite_arrives u now i v)
unfolding invite_arrives
arrives-Leaves u now i v = ground arith

expires-Leaves : (v : Invites) → Leaves v (expiry_fires v)
unfolding expiry_fires
expires-Leaves v = ground arith

submits-Leaves :
    (d : String) (now : ℕ) (v : Invites) → Leaves v (submit_voice_invite_decision d now v)
unfolding submit_voice_invite_decision
submits-Leaves d now v = ground arith

settle-same :
    (s : String) (v : Invites)
    → ((settle s v).panel ≡ v.panel)
      × ((settle s v).controller.search_request_id ≡ v.controller.search_request_id)
      × ((settle s v).searches ≡ v.searches)
unfolding control clear_expiry
settle-same s v = ground arith

decides-Leaves :
    (i : VoiceInvite) (d : String) (how : SwarmClose) (v : Invites)
    → Leaves v (apply_voice_invite_decision i d how v)
unfolding apply_voice_invite_decision
decides-Leaves i d how v = ground (
  arith,
  settle-same i.invite_id v,
  join-Kept i.room_id i.room_name how (settle i.invite_id v).panel,
)

accepted-Leaves :
    (i : VoiceInvite) (d : String) (how : SwarmClose) (v : Invites)
    → Leaves v (response_accepted i d how v)
unfolding response_accepted
accepted-Leaves i d how v = ground (arith, decides-Leaves i d how v)

refused-Leaves : (b : Bool) (v : Invites) → Leaves v (response_refused b v)
unfolding response_refused
refused-Leaves b v = ground arith

cleared-same : (c : Controller) → (clear_expiry c).0.search_request_id ≡ c.search_request_id
unfolding clear_expiry
cleared-same c = ground arith

find_search-number :
    (n : ℕ) (s : Search) (ss : List Search) → find_search n ss ≡ some s → s.search_request_id ≡ n
find_search-number n s [] e = ground arith
find_search-number n s (x ∷ ss) e = ground (arith, find_search-number n s ss)

module _ (user_id : String) (answer : ℕ → List User) where
  abbrev pub Shows : Invites → Type 0
  Shows v = IsLatest answer v.controller.search_request_id v.searches v.panel.picker

  Leaves-Shows : (v w : Invites) → Leaves v w → Shows v → Shows w
  Leaves-Shows v w l h = rw (l.last, l.searches) (Keeps-IsLatest answer _ _ _ _ l.picker h)

  if-Shows : (b : Bool) (v w : Invites) → Shows v → Shows w → Shows (if b then v else w)
  if-Shows true v w h k = h
  if-Shows false v w h k = k

  closes-Shows : (v : Invites) → Shows v → Shows (close_invite_picker v)
  unfolding close_invite_picker
  closes-Shows v h = fresh-IsLatest answer _ _ v.panel.picker _ h refl refl refl

  toggles-Shows : (v : Invites) → Shows v → Shows (handle_toggle_invite_picker v)
  unfolding handle_toggle_invite_picker
  toggles-Shows v h = if-Shows (not (is_some v.panel.active_room)) v _ h (
      if-Shows v.panel.picker.shown (close_invite_picker v) _ (closes-Shows v h)
        (fresh-IsLatest answer _ _ v.panel.picker _ h refl refl refl))

  types-Shows : (text : String) (v : Invites) → Shows v → Shows (handle_invite_search_change text v)
  unfolding handle_invite_search_change search emit
  types-Shows text v h =
      if-Shows (ltb (text_length (trim text)) 2) _ _
        (fresh-IsLatest answer _ _ v.panel.picker _ h refl refl refl)
        (searched-IsLatest answer _ _ text v.searches v.panel.picker h)

  answered-Shows :
      (n : ℕ) (s : Search) (v : Invites)
      → find_search n v.searches ≡ some s
      → Shows v
      → Shows (search_answered s (answer n) v)
  unfolding search_answered
  answered-Shows n s v f h =
      elim (Bool-cases (
        v.panel.is_unmounted
        || not (eqb s.request_id v.panel.picker.request_id)
        || not (eqb s.search_request_id v.controller.search_request_id))) [
          | inl t ↦ simp t h
          | inr g ↦
              let e : n ≡ v.controller.search_request_id =
                ground (arith, find_search-number n s v.searches) in
              let r : s.request_id ≡ v.panel.picker.request_id = ground arith in
              simp g (
                rw e (
                  answered-IsLatest answer v.controller.search_request_id s v.searches
                    v.panel.picker h (rw (← e) f) r))
        ]

  refused-Shows : (s : Search) (v : Invites) → Shows v → Shows (search_refused s v)
  unfolding search_refused
  refused-Shows s v h =
      if-Shows (v.panel.is_unmounted || not (eqb s.request_id v.panel.picker.request_id)) v _ h
        (refused-IsLatest answer _ "Could not search for users." v.searches v.panel.picker h)

  answers-Shows :
      (n : ℕ) (v : Invites)
      → Shows v
      → Shows (answer_search (answer n) (find_search n v.searches) v)
  answers-Shows n v h = elim (Option-cases (find_search n v.searches)) [
    | inl e ↦ simp e h
    | inr (s, e) ↦ simp e (answered-Shows n s v e h)
  ]

  refuses-Shows :
      (n : ℕ) (v : Invites) → Shows v → Shows (refuse_search (find_search n v.searches) v)
  refuses-Shows n v h = elim (Option-cases (find_search n v.searches)) [
    | inl e ↦ simp e h
    | inr (s, e) ↦ simp e (refused-Shows s v h)
  ]

  invites-Shows : (u : User) (v : Invites) → Shows v → Shows (handle_send_voice_invite u v)
  unfolding handle_send_voice_invite
  invites-Shows u v h = ground (arith, h.below, h.asked, h.unasked, h.found)

  sent-Shows : (u : User) (v : Invites) → Shows v → Shows (invite_sent u v)
  unfolding invite_sent
  sent-Shows u v h = ground (arith, h.below, h.asked, h.unasked, h.found)

  not_sent-Shows : (b : Bool) (v : Invites) → Shows v → Shows (invite_not_sent b v)
  unfolding invite_not_sent
  not_sent-Shows b v h = ground (arith, h.below, h.asked, h.unasked, h.found)

  unmounts-Shows : (how : SwarmClose) (v : Invites) → Shows v → Shows (unmount how v)
  unfolding unmount
  unmounts-Shows how v h =
      let k = Keeps-IsLatest answer _ _ _ _ (unmount-Keeps how v.panel) h in
      rw (cleared-same v.controller)
        (bumped-IsLatest answer _ v.searches (Joining.unmount how v.panel).picker k)

  step-Shows : (e : Event) (v : Invites) → Shows v → Shows (step user_id answer e v)
  unfolding step
  step-Shows (room e) v h = elim (Bool-cases (is_unmounting e)) [
    | inl t ↦ simp t h
    | inr f ↦ simp f (Keeps-IsLatest answer _ _ _ _ (step-Kept user_id e v.panel f).picker h)
  ]
  step-Shows toggles_picker v h = toggles-Shows v h
  step-Shows closes_picker v h = closes-Shows v h
  step-Shows (types text) v h = types-Shows text v h
  step-Shows (answers n) v h = answers-Shows n v h
  step-Shows (refuses n) v h = refuses-Shows n v h
  step-Shows (invites u) v h = invites-Shows u v h
  step-Shows (sent u) v h = sent-Shows u v h
  step-Shows (not_sent b) v h = not_sent-Shows b v h
  step-Shows (arrives now i) v h =
      if-Shows v.panel.is_unmounted v _ h (Leaves-Shows v _ (arrives-Leaves user_id now i v) h)
  step-Shows expires v h = Leaves-Shows v _ (expires-Leaves v) h
  step-Shows (submits d now) v h = Leaves-Shows v _ (submits-Leaves d now v) h
  step-Shows (decides i d how) v h =
      if-Shows v.panel.is_unmounted v _ h (Leaves-Shows v _ (decides-Leaves i d how v) h)
  step-Shows (accepted i d how) v h = Leaves-Shows v _ (accepted-Leaves i d how v) h
  step-Shows (refused b) v h = Leaves-Shows v _ (refused-Leaves b v) h
  step-Shows (unmounts how) v h = unmounts-Shows how v h

  run-Shows_from : (es : List Event) (v : Invites) → Shows v → Shows (run user_id answer es v)
  unfolding run
  run-Shows_from [] v h = h
  run-Shows_from (e ∷ es) v h = run-Shows_from es _ (step-Shows e v h)

  new_invites-Shows : Shows new_invites
  new_invites-Shows = ground arith

  -- After any events at all, whatever the order in which the server answers, a picker that is shown
  -- and whose search was answered lists no result or exactly the users that the server gave to the
  -- latest search, which was for the text in the box without the space around it; before an answer it
  -- has no result. No search has a number above that of the picker, and the searches with its number,
  -- while it is shown, are for that text.
  pub run-Shows : (es : List Event) → Shows (run user_id answer es new_invites)
  run-Shows es = run-Shows_from es new_invites new_invites-Shows
