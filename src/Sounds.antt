-- ===== src/Sounds.antt =====
-- The sounds of voice rooms and the notification of a call:
-- webapp/src/utils/voiceRoomSounds.js and webapp/src/utils/callBrowserNotify.js. What the browser has
-- and does is given.
use Prim.Native.String.{◌++◌ as append}
use mattermost_plugin_voices.Base.{
  ℕ, suc, String, Bool, true, false, ◌&&◌, ◌||◌, not, Option, none, some, List, [], ◌∷◌, ◌++◌, ◌≡◌,
  refl, is_set, eqb, any, arith, if◌then◌else◌,
}

pub data Effect : Type 0 where
  open_context resume_context : Effect
  tone : (index frequency : ℕ) → Effect
  close_later : (tones : ℕ) → Effect
  vibrate ask_permission : Effect
  notify : (title body : String) → Effect

-- No window, no AudioContext, one whose constructor throws, and one that plays; a tone may throw.
pub data Audio : Type 0 where
  missing blocked : Audio
  plays : (suspended : Bool) (throws_at : Option ℕ) → Audio

abbrev pub is_at : Option ℕ → ℕ → Bool
is_at none i = false
is_at (some j) i = eqb j i

-- `frequencies.forEach(…)` and what follows it, in hundredths of a hertz
unfoldable pub play_tones : (throws_at : Option ℕ) (count index : ℕ) → List ℕ → List Effect
play_tones throws_at count i [] = close_later count ∷ []
play_tones throws_at count i (f ∷ fs) =
    let rest = play_tones throws_at count (suc i) fs in
    if is_at throws_at i then [] else tone i f ∷ rest

abbrev pub count : List ℕ → ℕ
count [] = 0
count (f ∷ fs) = suc (count fs)

-- `playSequence`
unfoldable pub play_sequence : List ℕ → Audio → List Effect
unfolding play_tones
play_sequence fs missing = []
play_sequence fs blocked = []
play_sequence fs (plays suspended throws_at) =
    open_context
    ∷ ((if suspended then resume_context ∷ [] else []) ++ play_tones throws_at (count fs) 0 fs)

abbrev pub join_frequencies : List ℕ
join_frequencies = 52325 ∷ 65925 ∷ []

abbrev pub leave_frequencies : List ℕ
leave_frequencies = 65925 ∷ 39200 ∷ []

abbrev pub invite_frequencies : List ℕ
invite_frequencies = 65925 ∷ 78399 ∷ 98777 ∷ []

abbrev pub is_close : Effect → Bool
is_close (close_later n) = true
is_close _ = false

-- The permission of notifications, and what the user answers when asked; none is an error.
pub data Permission : Type 0 where
  no_notifications granted denied : Permission
  unasked : (answer : Option Bool) → Permission

abbrev pub show_incoming_notification : (peer_display_name : String) → List Effect
show_incoming_notification peer =
    notify "Incoming video call"
      (if is_set peer then append peer " is calling you" else "Someone is calling you")
    ∷ []

-- what is shown once the permission is known
abbrev pub permitted : (peer_display_name : String) → Permission → List Effect
permitted peer no_notifications = []
permitted peer granted = show_incoming_notification peer
permitted peer denied = []
permitted peer (unasked (some true)) = ask_permission ∷ show_incoming_notification peer
permitted peer (unasked _) = ask_permission ∷ []

-- `notifyIncomingCall`
unfoldable pub notify_incoming_call :
    (has_window can_vibrate : Bool) → Permission → (peer_display_name : String) → List Effect
notify_incoming_call has_window can_vibrate p peer =
    if has_window then (if can_vibrate then vibrate ∷ [] else []) ++ permitted peer p else []

-- whether the user has allowed notifications
abbrev pub allows : Permission → Bool
allows granted = true
allows (unasked (some b)) = b
allows _ = false

abbrev pub is_notify : Effect → Bool
is_notify (notify title body) = true
is_notify _ = false

-- A notification is shown exactly if there is a window and the user allows it, before or when asked.
pub notify-allowed :
    (has_window can_vibrate : Bool) (p : Permission) (peer : String)
    → any is_notify (notify_incoming_call has_window can_vibrate p peer) ≡ has_window && allows p
unfolding notify_incoming_call
notify-allowed false v p peer = refl
notify-allowed true v p peer = ground arith

-- whether a tone of those from an index on throws
abbrev pub breaks : Option ℕ → (index : ℕ) → List ℕ → Bool
breaks t i [] = false
breaks t i (f ∷ fs) = is_at t i || breaks t (suc i) fs

-- The context of a sound is closed exactly if none of its tones throws: one that throws leaves it open.
pub close-breaks :
    (t : Option ℕ) (n i : ℕ) (fs : List ℕ)
    → any is_close (play_tones t n i fs) ≡ not (breaks t i fs)
unfolding play_tones
close-breaks t n i [] = refl
close-breaks t n i (f ∷ fs) = ground (arith, close-breaks t n (suc i) fs)
