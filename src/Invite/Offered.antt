-- ===== src/Invite/Offered.antt =====
-- The invitation that the panel shows, and the timer of its expiry:
-- webapp/src/components/modals/audio_group_call/audio_group_call.jsx and
-- webapp/src/utils/voiceInviteController.js.
use mattermost_plugin_voices.Base.{
  ℕ, String, Bool, true, false, Option, none, some, List, [], ◌∷◌, ◌≡◌, arith, Bool-cases, inl, inr,
  if◌then◌else◌,
}
use mattermost_plugin_voices.Users.{User}
use mattermost_plugin_voices.Voice.Session.{SwarmClose}
use mattermost_plugin_voices.Room.Panel.{Panel}
use mattermost_plugin_voices.Room.Steps.{is_unmounting}
use mattermost_plugin_voices.Room.Keeping.{Kept, step-Kept, join-Kept, unmount-gone}
use mattermost_plugin_voices.Invite.Controller.{VoiceInvite, Expiry, clear_expiry}
use mattermost_plugin_voices.Invite.State.{Invites, Search, new_invites, control}
use mattermost_plugin_voices.Invite.Search.{
  handle_invite_search_change, close_invite_picker, handle_toggle_invite_picker,
  handle_send_voice_invite, invite_sent, invite_not_sent, search_answered, search_refused,
}
use mattermost_plugin_voices.Invite.Incoming.{
  invite_arrives, expiry_fires, submit_voice_invite_decision, apply_voice_invite_decision,
  response_accepted, response_refused, unmount, settle,
}
use mattermost_plugin_voices.Invite.Steps.{
  Event, room, toggles_picker, closes_picker, types, answers, refuses, invites, sent, not_sent,
  arrives, expires, submits, decides, accepted, refused, unmounts, find_search, answer_search,
  refuse_search, step, run,
}

abbrev pub timed : Option Expiry → Option VoiceInvite
timed none = none
timed (some e) = some e.invite

-- While the panel is mounted, it shows an invitation exactly as long as the timer of that invitation
-- runs; a panel that is gone has no timer.
pub record Offers (v : Invites) : Type 0 where
  pub running : v.panel.is_unmounted ≡ false → timed v.controller.expiry_timer ≡ v.incoming
  pub stopped : v.panel.is_unmounted ≡ true → timed v.controller.expiry_timer ≡ none

-- What leaves the invitation alone.
record Apart (v w : Invites) : Type 0 where
  gone : v.panel.is_unmounted ≡ w.panel.is_unmounted
  timer : w.controller.expiry_timer ≡ v.controller.expiry_timer
  incoming : w.incoming ≡ v.incoming

Apart-Offers : (v w : Invites) → Apart v w → Offers v → Offers w
Apart-Offers v w a o = ground arith

toggles-Apart : (v : Invites) → Apart v (handle_toggle_invite_picker v)
unfolding handle_toggle_invite_picker
toggles-Apart v = ground arith

closes-Apart : (v : Invites) → Apart v (close_invite_picker v)
unfolding close_invite_picker
closes-Apart v = ground arith

types-Apart : (text : String) (v : Invites) → Apart v (handle_invite_search_change text v)
unfolding handle_invite_search_change
types-Apart text v = ground arith

answered-Apart :
    (users : List User) (s : Option Search) (v : Invites) → Apart v (answer_search users s v)
unfolding search_answered
answered-Apart users none v = ground arith
answered-Apart users (some s) v = ground arith

refused-Apart : (s : Option Search) (v : Invites) → Apart v (refuse_search s v)
unfolding search_refused
refused-Apart none v = ground arith
refused-Apart (some s) v = ground arith

invites-Apart : (u : User) (v : Invites) → Apart v (handle_send_voice_invite u v)
unfolding handle_send_voice_invite
invites-Apart u v = ground arith

sent-Apart : (u : User) (v : Invites) → Apart v (invite_sent u v)
unfolding invite_sent
sent-Apart u v = ground arith

not_sent-Apart : (b : Bool) (v : Invites) → Apart v (invite_not_sent b v)
unfolding invite_not_sent
not_sent-Apart b v = ground arith

arrives-Offers :
    (u : String) (now : ℕ) (i : VoiceInvite) (v : Invites)
    → v.panel.is_unmounted ≡ false
    → Offers v
    → Offers (invite_arrives u now i v)
unfolding invite_arrives
arrives-Offers u now i v m o = ground arith

expires-Offers : (v : Invites) → Offers v → Offers (expiry_fires v)
unfolding expiry_fires
expires-Offers v o = ground arith

submits-Offers :
    (d : String) (now : ℕ) (v : Invites) → Offers v → Offers (submit_voice_invite_decision d now v)
unfolding submit_voice_invite_decision
submits-Offers d now v o = ground arith

settle-Offers :
    (s : String) (v : Invites) → v.panel.is_unmounted ≡ false → Offers v → Offers (settle s v)
unfolding control clear_expiry
settle-Offers s v m o = ground arith

refused-Offers : (b : Bool) (v : Invites) → Offers v → Offers (response_refused b v)
unfolding response_refused
refused-Offers b v o = ground arith

panel-Offers :
    (q : Panel) (v : Invites) → Kept v.panel q → Offers v → Offers (record v { panel = q })
panel-Offers q v k o = ground arith

unmounts-Offers : (how : SwarmClose) (v : Invites) → Offers (unmount how v)
unfolding unmount
unmounts-Offers how v = ground (arith, unmount-gone how v.panel)

settle-panel : (s : String) (v : Invites) → (settle s v).panel ≡ v.panel
unfolding control clear_expiry
settle-panel s v = ground arith

decides-Offers :
    (i : VoiceInvite) (d : String) (how : SwarmClose) (v : Invites)
    → v.panel.is_unmounted ≡ false
    → Offers v
    → Offers (apply_voice_invite_decision i d how v)
unfolding apply_voice_invite_decision
decides-Offers i d how v m o =
    let w = settle i.invite_id v in
    let settled = settle-Offers i.invite_id v m o in
    let joined = panel-Offers _ w (join-Kept i.room_id i.room_name how w.panel) settled in
    ground arith

mounted-Offers :
    (v w : Invites)
    → Offers v
    → (v.panel.is_unmounted ≡ false → Offers w)
    → Offers (if v.panel.is_unmounted then v else w)
mounted-Offers v w o f = ground arith

module _ (user_id : String) (answer : ℕ → List User) where
  step-Offers : (e : Event) (v : Invites) → Offers v → Offers (step user_id answer e v)
  unfolding step response_accepted
  step-Offers (room e) v o = elim (Bool-cases (is_unmounting e)) [
    | inl t ↦ simp t o
    | inr f ↦ simp f (panel-Offers _ v (step-Kept user_id e v.panel f) o)
  ]
  step-Offers toggles_picker v o = Apart-Offers v _ (toggles-Apart v) o
  step-Offers closes_picker v o = Apart-Offers v _ (closes-Apart v) o
  step-Offers (types text) v o = Apart-Offers v _ (types-Apart text v) o
  step-Offers (answers n) v o =
      Apart-Offers v _ (answered-Apart (answer n) (find_search n v.searches) v) o
  step-Offers (refuses n) v o = Apart-Offers v _ (refused-Apart (find_search n v.searches) v) o
  step-Offers (invites u) v o = Apart-Offers v _ (invites-Apart u v) o
  step-Offers (sent u) v o = Apart-Offers v _ (sent-Apart u v) o
  step-Offers (not_sent b) v o = Apart-Offers v _ (not_sent-Apart b v) o
  step-Offers (arrives now i) v o = mounted-Offers v _ o (λ m. arrives-Offers user_id now i v m o)
  step-Offers expires v o = expires-Offers v o
  step-Offers (submits d now) v o = submits-Offers d now v o
  step-Offers (decides i d how) v o = mounted-Offers v _ o (λ m. decides-Offers i d how v m o)
  step-Offers (accepted i d how) v o = mounted-Offers v _ o (λ m. decides-Offers i d how v m o)
  step-Offers (refused b) v o = refused-Offers b v o
  step-Offers (unmounts how) v o = unmounts-Offers how v

  run-Offers_from : (es : List Event) (v : Invites) → Offers v → Offers (run user_id answer es v)
  unfolding run
  run-Offers_from [] v o = o
  run-Offers_from (e ∷ es) v o = run-Offers_from es _ (step-Offers e v o)

  -- After any events at all, a mounted panel shows an invitation exactly while the timer of that
  -- invitation runs, and a panel that is gone has no timer.
  pub run-Offers : (es : List Event) → Offers (run user_id answer es new_invites)
  run-Offers es = run-Offers_from es new_invites (ground arith)
