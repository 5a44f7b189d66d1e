-- ===== src/Invite/Controller.antt =====
-- webapp/src/utils/voiceInviteController.js: the numbers of searches and the timer of an invitation.
-- `now` is the answer of `this.now()`; what the controller does outside it is a list of effects.
use mattermost_plugin_voices.Base.{
  ℕ, suc, String, Bool, true, not, ◌&&◌, Option, none, some, List, [], ◌∷◌, ◌++◌, leb, ltb, eqb,
  is_set, if◌then◌else◌,
}
use Prim.Native.Nat.{◌+◌, ◌-◌}
use Prim.Native.Char.{code}
use mattermost_plugin_voices.Base.Text.{trim}

-- An invitation. `expires_at` is `Number(invite.expiresAt)`, in milliseconds, if that is finite and
-- not negative; `object` is the identity of the object.
pub record VoiceInvite : Type 0 where
  pub object : ℕ
  pub invite_id : String
  pub post_id : String
  pub room_id : String
  pub room_name : String
  pub inviter_id : String
  pub expires_at : Option ℕ

pub data Effect : Type 0 where
  search_users : (search_request_id : ℕ) (term : String) → Effect
  send_invite : (room_id user_id : String) → Effect
  respond_invite : (post_id invite_id decision : String) → Effect
  set_timer : (timer delay : ℕ) → Effect
  clear_timer : ℕ → Effect
  play_invite_sound : Effect

-- the timer of the expiry, with the invitation that its function captures
pub record Expiry : Type 0 where
  pub timer : ℕ
  pub invite : VoiceInvite

pub record Controller : Type 0 where
  pub search_request_id : ℕ
  pub expiry_timer : Option Expiry
  pub next : ℕ

abbrev pub new_controller : Controller
new_controller = record { search_request_id = 0; expiry_timer = none; next = 0 }

abbrev pub is_expired : (now : ℕ) → VoiceInvite → Bool
is_expired now invite = elim invite.expires_at [ none ↦ true | some t ↦ leb t now ]

-- `s.length`: a character beyond the basic plane counts twice.
unfoldable pub text_length : String → ℕ
text_length String.[] = 0
text_length (String.◌∷◌ c s) = (if ltb (code c) 0x10000 then 1 else 2) + text_length s

-- `search`: whether it asks the server
unfoldable pub search : (term : String) → Controller → Controller × Bool
unfolding text_length
search term c = (
  record c { search_request_id = suc c.search_request_id },
  not (ltb (text_length (trim term)) 2),
)

abbrev pub is_current_search : (request_id : ℕ) → Controller → Bool
is_current_search request_id c = eqb request_id c.search_request_id

-- whether `send` asks the server; if not, its promise is rejected
abbrev pub can_send : (room_id user_id : String) → Bool
can_send room_id user_id = is_set room_id && is_set user_id

-- whether `respond` asks the server; if not, its promise is rejected
abbrev pub can_respond : (now : ℕ) → VoiceInvite → Bool
can_respond now invite =
    is_set invite.post_id && is_set invite.invite_id && not (is_expired now invite)

unfoldable pub clear_expiry : Controller → Controller × List Effect
clear_expiry c = elim c.expiry_timer [
  | none ↦ (c, [])
  | some e ↦ (record c { expiry_timer = none }, clear_timer e.timer ∷ [])
]

-- `Number(invite.expiresAt) - this.now()`, of an invitation that has not expired
abbrev pub delay : (now : ℕ) → VoiceInvite → ℕ
delay now invite = elim invite.expires_at [ none ↦ 0 | some t ↦ t - now ]

unfoldable pub schedule_expiry : (now : ℕ) → VoiceInvite → Controller → Controller × List Effect
unfolding clear_expiry
schedule_expiry now invite c =
    let (d, cleared) = clear_expiry c in
    if is_expired now invite then (d, cleared) else (
      record d {
        expiry_timer = some (record { timer = d.next; invite = invite });
        next = suc d.next;
      },
      cleared ++ (set_timer d.next (delay now invite) ∷ []),
    )
