-- ===== src/Invite/Post.antt =====
-- The post of an invitation: webapp/src/components/post_types/voice_invite_post.jsx. Given are
-- `JSON.parse`, which may give no value, and `Number`, which gives none for a number that is not
-- finite; a missing text is the empty one.
use mattermost_plugin_voices.Base.{
  ℕ, suc, String, Bool, true, false, not, ◌&&◌, ◌||◌, Option, none, some, List, [], ◌∷◌, push, leb,
  is_set, or_else, ◌≡◌, arith, eq_refl, if◌then◌else◌, ◌==◌,
}
use mattermost_plugin_voices.Base.Js.{Value, str, obj, arr, get, text_of}

pub data Effect : Type 0 where
  respond : (post_id invite_id decision : String) → Effect
  tell_decision : (post_id invite_id decision : String) → Effect
  set_timer clear_timer : ℕ → Effect

-- `invite && typeof invite === 'object' ? invite : null`
abbrev pub object_of : Value → Option Value
object_of (obj fs) = some (obj fs)
object_of (arr xs) = some (arr xs)
object_of _ = none

abbrev pub parsed : (parse : String → Option Value) → Value → Option Value
parsed parse (str s) = elim (parse s) [ none ↦ none | some v ↦ object_of v ]
parsed parse v = object_of v

-- `parseVoiceInvite`, of the properties of a post
abbrev pub parse_voice_invite : (parse : String → Option Value) (props : Value) → Option Value
parse_voice_invite parse props = parsed parse (get "voice_invite" props)

pub record Post : Type 0 where
  pub submitting : Bool
  pub local_status : String
  pub local_invite_id : String
  pub error : String
  pub expired_invite_id : Option String
  pub expiry_timer : Option (ℕ × String)
  pub next : ℕ
  pub log : List Effect

abbrev pub new_post : Post
new_post = record {
  submitting = false;
  local_status = "";
  local_invite_id = "";
  error = "";
  expired_invite_id = some "";
  expiry_timer = none;
  next = 0;
  log = [];
}

abbrev pub emit : List Effect → Post → Post
emit es p = record p { log = push es p.log }

unfoldable pub clear_expiry_timer : Post → Post
clear_expiry_timer p = elim p.expiry_timer [
  | none ↦ p
  | some (t, id) ↦ emit (clear_timer t ∷ []) (record p { expiry_timer = none })
]

abbrev pub id_of : Value → String
id_of v = text_of (get "inviteId" v)

abbrev pub status_of : Value → String
status_of v = text_of (get "status" v)

-- `this.state.expiredInviteId === invite.inviteId`
abbrev pub is_marked : Value → Post → Bool
is_marked v p = elim p.expired_invite_id [ none ↦ false | some id ↦ id == id_of v ]

-- `Number(invite.expiresAt) <= Date.now()`
abbrev pub is_past : (now : ℕ) → Option ℕ → Bool
is_past now none = false
is_past now (some t) = leb t now

module _ (to_number : Value → Option ℕ) where
  abbrev expires : Value → Option ℕ
  expires v = to_number (get "expiresAt" v)

  abbrev pub start_timer : (now : ℕ) → Value → Option ℕ → Post → Post
  start_timer now v none p = record p { expired_invite_id = some (id_of v) }
  start_timer now v (some t) p =
      if leb t now
      then record p { expired_invite_id = some (id_of v) }
      else emit (set_timer p.next ∷ [])
          (record p { expiry_timer = some (p.next, id_of v); next = suc p.next })

  -- `scheduleExpiry`, for what `parseVoiceInvite` gives
  unfoldable pub schedule_expiry : (now : ℕ) → Option Value → Post → Post
  unfolding clear_expiry_timer
  schedule_expiry now none p = clear_expiry_timer p
  schedule_expiry now (some v) p =
      if not (status_of v == "pending")
      then clear_expiry_timer p
      else start_timer now v (expires v) (clear_expiry_timer p)

  -- `handleDecision` up to the answer
  unfoldable pub handle_decision :
      (post_id decision : String) (now : ℕ) → Option Value → Post → Post
  handle_decision post_id decision now none p = record p { expired_invite_id = none }
  handle_decision post_id decision now (some v) p =
      if is_marked v p || is_past now (expires v)
      then record p { expired_invite_id = some (id_of v) }
      else emit (respond post_id (id_of v) decision ∷ [])
          (record p { submitting = true; error = "" })

  -- the status that `render` shows
  abbrev pub shown_status : Value → Post → String
  shown_status v p =
      or_else (if p.local_invite_id == id_of v then p.local_status else "")
        (or_else (status_of v) "pending")

  abbrev pub has_expired : (now : ℕ) → Value → Post → Bool
  has_expired now v p = is_marked v p || shown_status v p == "pending" && is_past now (expires v)

  -- whether `render` shows the buttons
  unfoldable pub can_respond : (user_id : String) (now : ℕ) → Value → Post → Bool
  can_respond user_id now v p =
      text_of (get "targetUserId" v) == user_id
      && shown_status v p == "pending"
      && not (has_expired now v p)

  -- While the buttons of a post are shown, a click on one of them sends its answer to the server.
  pub can_respond-handle_decision :
      (user_id post_id decision : String) (now : ℕ) (v : Value) (p : Post)
      → can_respond user_id now v p ≡ true
      → handle_decision post_id decision now (some v) p
        ≡ emit
            (respond post_id (id_of v) decision ∷ [])
            (record p { submitting = true; error = "" })
  unfolding can_respond handle_decision
  can_respond-handle_decision user_id post_id decision now v p c = ground arith

-- The timer fires.
unfoldable pub timer_fires : Post → Post
timer_fires p = elim p.expiry_timer [
  | none ↦ p
  | some (t, id) ↦ record p { expiry_timer = none; expired_invite_id = some id }
]

-- The server has accepted an answer, or has not.
unfoldable pub answer_accepted : (post_id decision : String) → Value → Post → Post
unfolding clear_expiry_timer
answer_accepted post_id decision v p =
    emit (tell_decision post_id (id_of v) decision ∷ []) (record (clear_expiry_timer p) {
      submitting = false;
      local_status = decision;
      local_invite_id = id_of v;
    })

unfoldable pub answer_refused : Post → Post
answer_refused p = record p { submitting = false; error = "Could not answer this invitation." }

-- Once an answer was accepted, the buttons stay away, whatever the user and the time, unless the
-- answer is empty or asks for the pending state.
pub can_respond-answer_accepted :
    (to_number : Value → Option ℕ) (user_id post_id decision : String) (now : ℕ) (v : Value)
    (p : Post)
    → is_set decision ≡ true
    → (decision == "pending") ≡ false
    → can_respond to_number user_id now v (answer_accepted post_id decision v p) ≡ false
unfolding can_respond answer_accepted
can_respond-answer_accepted to_number user_id post_id decision now v p s d =
    ground (arith, eq_refl (id_of v))
