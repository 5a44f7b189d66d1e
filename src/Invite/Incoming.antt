-- ===== src/Invite/Incoming.antt =====
-- An invitation that arrives: the listeners of `startVoiceInviteEvents`, `submitVoiceInviteDecision`
-- and `applyVoiceInviteDecision` of
-- webapp/src/components/modals/audio_group_call/audio_group_call.jsx. `now` is the time at which a
-- handler runs.
use mattermost_plugin_voices.Base.{
  ℕ, suc, String, Bool, true, false, not, ◌&&◌, none, some, [], ◌∷◌, eqb, is_set, if◌then◌else◌,
  ◌==◌,
}
use mattermost_plugin_voices.Voice.Session.{SwarmClose}
use mattermost_plugin_voices.Room.Joining.{handle_join_room}
use mattermost_plugin_voices.Room.Joining
use mattermost_plugin_voices.Invite.Controller.{
  VoiceInvite, is_expired, can_respond, clear_expiry, schedule_expiry, play_invite_sound,
  respond_invite,
}
use mattermost_plugin_voices.Invite.State.{Invites, emit, control}

-- whether the listener shows an invitation
abbrev pub is_shown_to : (user_id : String) (now : ℕ) → VoiceInvite → Bool
is_shown_to user_id now invite =
    is_set invite.room_id
    && is_set invite.room_name
    && is_set invite.inviter_id
    && not (invite.inviter_id == user_id)
    && not (is_expired now invite)

-- the listener of `subscribeVoiceInvites`
unfoldable pub invite_arrives : (user_id : String) (now : ℕ) → VoiceInvite → Invites → Invites
unfolding control schedule_expiry emit
invite_arrives user_id now invite v =
    if not (is_shown_to user_id now invite)
    then v
    else let w = emit (play_invite_sound ∷ []) (control (clear_expiry v.controller) v) in
      let x = record w { incoming = some invite; response_pending = false; response_error = "" } in
      control (schedule_expiry now invite x.controller) x

-- `this.state.incomingVoiceInvite === invite`
abbrev pub is_incoming : VoiceInvite → Invites → Bool
is_incoming invite v = elim v.incoming [ none ↦ false | some i ↦ eqb i.object invite.object ]

-- The timer of the expiry fires, which is there until it is cleared.
unfoldable pub expiry_fires : Invites → Invites
expiry_fires v = elim v.controller.expiry_timer [
  | none ↦ v
  | some e ↦
      let w = record v { controller = record v.controller { expiry_timer = none } } in
      if not w.panel.is_unmounted && is_incoming e.invite w
      then record w { incoming = none; response_pending = false; response_error = "" }
      else w
]

-- `submitVoiceInviteDecision` up to the answer
unfoldable pub submit_voice_invite_decision : (decision : String) (now : ℕ) → Invites → Invites
unfolding control clear_expiry emit
submit_voice_invite_decision decision now v = elim v.incoming [
  | none ↦ v
  | some i ↦
      if is_expired now i
      then record (control (clear_expiry v.controller) v) { incoming = none }
      else emit
          (if can_respond now i then respond_invite i.post_id i.invite_id decision ∷ [] else [])
          (record v { response_pending = true; response_error = "" })
]

-- the invitation that is shown has this id
abbrev pub shows_invite : (invite_id : String) → Invites → Bool
shows_invite invite_id v = elim v.incoming [ none ↦ false | some i ↦ i.invite_id == invite_id ]

-- the first half of `applyVoiceInviteDecision`
abbrev pub settle : (invite_id : String) → Invites → Invites
settle invite_id v =
    if shows_invite invite_id v
    then record (control (clear_expiry v.controller) v) {
      incoming = none;
      response_pending = false;
      response_error = "";
    }
    else v

-- `applyVoiceInviteDecision`
unfoldable pub apply_voice_invite_decision :
    VoiceInvite → (decision : String) → SwarmClose → Invites → Invites
unfolding control clear_expiry handle_join_room
apply_voice_invite_decision invite decision how v =
    if not (is_set invite.invite_id)
    then v
    else let w = settle invite.invite_id v in
      if decision == "accepted"
      then record w { panel = handle_join_room invite.room_id invite.room_name how w.panel }
      else w

-- The promise of a response is fulfilled, for the invitation that was shown when it was asked for.
unfoldable pub response_accepted :
    VoiceInvite → (decision : String) → SwarmClose → Invites → Invites
unfolding apply_voice_invite_decision
response_accepted invite decision how v =
    if v.panel.is_unmounted then v else apply_voice_invite_decision invite decision how v

-- It is rejected; `unavailable` says that the server answered 409 or 410.
unfoldable pub response_refused : (unavailable : Bool) → Invites → Invites
unfolding control clear_expiry
response_refused unavailable v =
    if v.panel.is_unmounted
    then v
    else if unavailable
    then record (control (clear_expiry v.controller) v) {
      incoming = none;
      response_pending = false;
    }
    else record v { response_pending = false; response_error = "Could not answer this invitation." }

-- `componentWillUnmount`, with the subscriptions and the invitations
unfoldable pub unmount : SwarmClose → Invites → Invites
unfolding control clear_expiry Joining.unmount
unmount how v =
    let p = Joining.unmount how v.panel in
    let w = control (clear_expiry v.controller) (record v { panel = p }) in
    record w {
      panel = record w.panel {
        picker = record w.panel.picker { request_id = suc w.panel.picker.request_id };
      };
    }
