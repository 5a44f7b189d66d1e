-- ===== src/Call/Guards.antt =====
-- Which events start a call, and which are refused: webapp/src/actions/index.js.
use mattermost_plugin_voices.Base.{
  ℕ, String, Bool, true, false, not, ◌||◌, Option, none, some, ◌≡◌, ◌≢◌, inl, inr, sym, ◌∙◌, is_set,
  same, eq_iff, same→eq, arith, Option-cases, Bool-cases,
}
use mattermost_plugin_voices.Base.Js.{Value, get, text_of}
use mattermost_plugin_voices.Call.Reducers.{reduce}
use mattermost_plugin_voices.Call.Session.{ringing, is_idle}
use mattermost_plugin_voices.Call.World.{World, user_id}
use mattermost_plugin_voices.Call.Consistent.{Consistent}
use mattermost_plugin_voices.Call.Placing.{make_video_call, start_outgoing, session_created}
use mattermost_plugin_voices.Call.Answering.{
  Invite, inbox_message, receive_video_call, parse_authorized_call_invite, accept_message,
}
use mattermost_plugin_voices.Call.Sharing.{peer_found}
use mattermost_plugin_voices.Call.Steps.{
  place, inbox, accept_arrives, found_peer, session_answer, step,
}

-- A page whose call agrees with its slice.
idle_of_quiet :
    (w : World)
    → Consistent w
    → w.slice.call_incoming ≡ false
    → w.slice.call_outgoing ≡ false
    → is_idle w.session.state ≡ true
idle_of_quiet w h i o = ground (arith, h.busy_flag)

-- What a call that was just placed shows: it rings, to the given user.
pub record Placed (c p : String) (a : Bool) (v : World) : Type 0 where
  pub state : v.session.state ≡ ringing
  pub call_id : v.session.call_id ≡ some c
  pub peer_id : v.session.peer_id ≡ some p
  pub outgoing : v.slice.call_outgoing ≡ true
  pub active : v.slice.active_call_id ≡ some c
  pub shown_peer : v.slice.call_peer_id ≡ p
  pub visible : v.slice.modal_visible ≡ true
  pub audio_only : v.slice.call_audio_only ≡ a
  pub camera : v.slice.video_on ≡ not a

start_outgoing-Placed :
    (c p : String) (a : Bool) (w : World)
    → is_set c ≡ true
    → is_set p ≡ true
    → is_idle w.session.state ≡ true
    → Placed c p a (start_outgoing c p a w)
unfolding start_outgoing reduce
start_outgoing-Placed c p a w sc sp idle = ground arith

start_of_quiet :
    (c p : String) (a : Bool) (w : World)
    → w.slice.config_loaded ≡ true
    → is_set p ≡ true
    → is_set (user_id w.user) ≡ true
    → p ≢ user_id w.user
    → w.slice.call_incoming ≡ false
    → w.slice.call_outgoing ≡ false
    → make_video_call c p a w ≡ start_outgoing c p a w
unfolding make_video_call
start_of_quiet c p a w l sp su ne i o = ground (arith, eq_iff p (user_id w.user))

same_of_distinct : (a b : Option String) → a ≢ b → same a b ≡ false
same_of_distinct a b ne = elim (Bool-cases (same a b)) [
  | inl t ↦ absurd (ne (same→eq a b t))
  | inr f ↦ f
]

module _ (parse : String → Option Value) where
  -- On a page whose configuration is loaded, which has a user with an id, and where slice and session
  -- agree that there is no call, a call to another user is placed, and rings with the camera off
  -- exactly if it is an audio call.
  pub place-Placed :
      (c p : String) (a : Bool) (w : World)
      → Consistent w
      → w.slice.config_loaded ≡ true
      → is_set c ≡ true
      → is_set p ≡ true
      → is_set (user_id w.user) ≡ true
      → p ≢ user_id w.user
      → w.slice.call_incoming ≡ false
      → w.slice.call_outgoing ≡ false
      → Placed c p a (step parse (place c p a) w)
  unfolding step
  place-Placed c p a w h l sc sp su ne i o =
      rw (start_of_quiet c p a w l sp su ne i o)
        (start_outgoing-Placed c p a w sc sp (idle_of_quiet w h i o))

  receive_refused :
      (i : Invite) (w : World)
      → (w.slice.call_incoming || w.slice.call_outgoing) ≡ true
      → receive_video_call i w ≡ w
  unfolding receive_video_call
  receive_refused i w b = ground arith

  inbox_refused :
      (raw : Value) (w : World)
      → (w.slice.call_incoming || w.slice.call_outgoing) ≡ true
      → inbox_message raw w ≡ w
  unfolding inbox_message
  inbox_refused raw w b = elim (Option-cases (parse_authorized_call_invite raw)) [
    | inl e ↦ rw (e, inbox_message)
    | inr (i, e) ↦ rw (e, inbox_message) (receive_refused i w b)
  ]

  place_refused :
      (c p : String) (a : Bool) (w : World)
      → (w.slice.call_incoming || w.slice.call_outgoing) ≡ true
      → make_video_call c p a w ≡ w
  unfolding make_video_call
  place_refused c p a w b = ground arith

  -- While a call comes in or goes out, no invite and no click starts another, whatever they carry.
  pub busy_refuses :
      (c p : String) (a : Bool) (raw : Value) (w : World)
      → (w.slice.call_incoming || w.slice.call_outgoing) ≡ true
      → (step parse (place c p a) w ≡ w) × (step parse (inbox raw) w ≡ w)
  unfolding step
  busy_refuses c p a raw w b = (place_refused c p a w b, inbox_refused raw w b)

  parsed_caller :
      (raw : Value) (i : Invite)
      → parse_authorized_call_invite raw ≡ some i
      → i.caller_id ≡ text_of (get "senderId" raw)
  unfolding parse_authorized_call_invite
  parsed_caller raw i e = ground arith

  own_invite_refused :
      (i : Invite) (w : World) → i.caller_id ≡ user_id w.user → receive_video_call i w ≡ w
  unfolding receive_video_call
  own_invite_refused i w e = ground (arith, eq_iff i.caller_id (user_id w.user))

  own_inbox_refused :
      (raw : Value) (w : World)
      → text_of (get "senderId" raw) ≡ user_id w.user
      → inbox_message raw w ≡ w
  unfolding inbox_message
  own_inbox_refused raw w e = elim (Option-cases (parse_authorized_call_invite raw)) [
    | inl n ↦ rw (n, inbox_message)
    | inr (i, p) ↦ rw (p, inbox_message) (own_invite_refused i w (parsed_caller raw i p ∙ e))
  ]

  own_place_refused :
      (c : String) (a : Bool) (w : World) → make_video_call c (user_id w.user) a w ≡ w
  unfolding make_video_call
  own_place_refused c a w = ground (arith, eq_iff (user_id w.user) (user_id w.user))

  -- Nobody calls themselves: a call to the user's own id is not placed, and an invite that the user
  -- sent does not ring.
  pub own_call_refused :
      (c : String) (a : Bool) (raw : Value) (w : World)
      → text_of (get "senderId" raw) ≡ user_id w.user
      → (step parse (place c (user_id w.user) a) w ≡ w) × (step parse (inbox raw) w ≡ w)
  unfolding step
  own_call_refused c a raw w e = (own_place_refused c a w, own_inbox_refused raw w e)

  other_call :
      (c : String) (w : World)
      → Consistent w
      → w.session.call_id ≢ some c
      → (same (some c) w.session.call_id ≡ false) × (same w.slice.active_call_id (some c) ≡ false)
  other_call c w h ne = (
    same_of_distinct (some c) w.session.call_id (λ e. ne (sym e)),
    same_of_distinct w.slice.active_call_id (some c) (λ e. ne (h.same_call ∙ e)),
  )

  stale_accept :
      (c u : String) (hub : ℕ) (m : Value) (w : World)
      → same (some c) w.session.call_id ≡ false
      → accept_message u c hub m w ≡ w
  unfolding accept_message
  stale_accept c u hub m w d = ground arith

  stale_peer :
      (c u : String) (peer : ℕ) (w : World)
      → same (some c) w.session.call_id ≡ false
      → peer_found c u peer w ≡ w
  unfolding peer_found
  stale_peer c u peer w d = ground arith

  stale_failure :
      (c u : String) (a : Bool) (w : World)
      → same w.slice.active_call_id (some c) ≡ false
      → session_created c u a none w ≡ w
  unfolding session_created
  stale_failure c u a w d = ground arith

  -- An event of a call that is over, or of another call, changes nothing: the callee's accept, the
  -- peer that the swarm finds, a server that refuses the signalling session.
  pub stale_ignored :
      (c u : String) (a : Bool) (hub peer : ℕ) (m : Value) (w : World)
      → Consistent w
      → w.session.call_id ≢ some c
      → (step parse (accept_arrives u c hub m) w ≡ w)
        × (step parse (found_peer c u peer) w ≡ w)
        × (step parse (session_answer c u a none) w ≡ w)
  unfolding step
  stale_ignored c u a hub peer m w h ne =
      let (s, t) = other_call c w h ne in
      (stale_accept c u hub m w s, stale_peer c u peer w s, stale_failure c u a w t)
