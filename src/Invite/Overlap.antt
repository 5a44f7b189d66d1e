-- ===== src/Invite/Overlap.antt =====
-- A second invitation that arrives while the answer to the first is under way:
-- webapp/src/components/modals/audio_group_call/audio_group_call.jsx.
use mattermost_plugin_voices.Base.{ℕ, String, true, false, none, some, ◌≡◌, ap, ◌∙◌, arith, ◌==◌}
use mattermost_plugin_voices.Voice.Session.{SwarmClose}
use mattermost_plugin_voices.Invite.Controller.{VoiceInvite, clear_expiry}
use mattermost_plugin_voices.Invite.State.{Invites, control}
use mattermost_plugin_voices.Invite.Incoming.{
  invite_arrives, is_shown_to, submit_voice_invite_decision, apply_voice_invite_decision, settle,
  response_accepted, response_refused,
}
use mattermost_plugin_voices.Invite.Offered.{timed}

-- an answer is sent, and then another invitation arrives
abbrev pub overlapping :
    (user_id decision : String) (asked now : ℕ) → VoiceInvite → Invites → Invites
overlapping user_id decision asked now j v =
    invite_arrives user_id now j (submit_voice_invite_decision decision asked v)

arrived :
    (user_id : String) (now : ℕ) (j : VoiceInvite) (v : Invites)
    → is_shown_to user_id now j ≡ true
    → ((invite_arrives user_id now j v).incoming ≡ some j)
      × (timed (invite_arrives user_id now j v).controller.expiry_timer ≡ some j)
      × ((invite_arrives user_id now j v).panel ≡ v.panel)
unfolding invite_arrives
arrived user_id now j v s = ground arith

submitted-panel :
    (d : String) (now : ℕ) (v : Invites) → (submit_voice_invite_decision d now v).panel ≡ v.panel
unfolding submit_voice_invite_decision
submitted-panel d now v = ground arith

settled_apart :
    (k : String) (j : VoiceInvite) (w : Invites)
    → w.incoming ≡ some j
    → (j.invite_id == k) ≡ false
    → settle k w ≡ w
unfolding control clear_expiry
settled_apart k j w e f = ground arith

accepted_apart :
    (i j : VoiceInvite) (d : String) (how : SwarmClose) (w : Invites)
    → w.incoming ≡ some j
    → (j.invite_id == i.invite_id) ≡ false
    → ((response_accepted i d how w).incoming ≡ some j)
      × ((response_accepted i d how w).controller ≡ w.controller)
unfolding response_accepted apply_voice_invite_decision
accepted_apart i j d how w e f = ground (arith, settled_apart i.invite_id j w e f)

refused_drops :
    (w : Invites)
    → w.panel.is_unmounted ≡ false
    → ((response_refused true w).incoming ≡ none)
      × ((response_refused true w).controller.expiry_timer ≡ none)
unfolding response_refused
refused_drops w m = ground arith

-- Let the user answer an invitation, and let another one, with another id, arrive before the server
-- answers. If the server accepts the answer, the other invitation stays with its timer; if it says
-- that the first is no longer available, the panel drops the other one and its timer. The panel is
-- mounted, and the other invitation is one that the panel shows.
pub late_refusal_drops :
    (user_id decision : String) (asked now : ℕ) (how : SwarmClose) (i j : VoiceInvite) (v : Invites)
    → v.panel.is_unmounted ≡ false
    → is_shown_to user_id now j ≡ true
    → (j.invite_id == i.invite_id) ≡ false
    → let w = overlapping user_id decision asked now j v in
      (w.incoming ≡ some j)
      × ((response_accepted i decision how w).incoming ≡ some j)
      × (timed (response_accepted i decision how w).controller.expiry_timer ≡ some j)
      × ((response_refused true w).incoming ≡ none)
      × (timed (response_refused true w).controller.expiry_timer ≡ none)
late_refusal_drops user_id decision asked now how i j v m s f =
    let u = submit_voice_invite_decision decision asked v in
    let w = overlapping user_id decision asked now j v in
    let (shown, running, same) = arrived user_id now j u s in
    let (kept, control_kept) = accepted_apart i j decision how w shown f in
    let (dropped, cleared) =
      refused_drops w (ap (λ q. q.is_unmounted) (same ∙ submitted-panel decision asked v) ∙ m) in
    (shown, kept, ap (λ c. timed c.expiry_timer) control_kept ∙ running, dropped, ap timed cleared)
