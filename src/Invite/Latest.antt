-- ===== src/Invite/Latest.antt =====
-- The users that the picker shows are those of the latest search:
-- webapp/src/components/modals/audio_group_call/audio_group_call.jsx and
-- webapp/src/utils/voiceInviteController.js.
use mattermost_plugin_voices.Base.{
  ℕ, suc, String, Bool, true, false, not, ◌||◌, Option, none, some, List, [], ◌∷◌, ◌≡◌, refl, all,
  eqb, leb, arith, ◌⊎◌, inl, inr, if◌then◌else◌, eq_iff, eq_refl, ◌==◌,
}
use mattermost_plugin_voices.Base.Text.{trim}
use mattermost_plugin_voices.Users.{User}
use mattermost_plugin_voices.Room.Picker.{Picker, hide}
use mattermost_plugin_voices.Room.Keeping.{Keeps}
use mattermost_plugin_voices.Invite.State.{Search}
use mattermost_plugin_voices.Invite.Search.{typed}
use mattermost_plugin_voices.Invite.Steps.{find_search}

abbrev pub term_of : Option Search → Option String
term_of none = none
term_of (some s) = some s.term

abbrev pub is_below : (request_id : ℕ) → List Search → Bool
is_below n searches = all (λ s. leb s.request_id n) searches

-- The searches with the number of the picker are for the text in its box.
abbrev pub are_for : (request_id : ℕ) (term : String) → List Search → Bool
are_for n term searches = all (λ s. not (eqb s.request_id n) || s.term == term) searches

-- A picker `k`, with the searches so far and the number of the last one, shows the answer to the
-- search for the text in its box, or no user.
pub record IsLatest (answer : ℕ → List User) (last : ℕ) (searches : List Search) (k : Picker)
    : Type 0 where
  pub below : is_below k.request_id searches ≡ true
  pub asked : k.shown ≡ true → are_for k.request_id (trim k.search) searches ≡ true
  pub unasked : k.has_run ≡ false → k.results ≡ []
  pub found :
      k.shown ≡ true
      → k.has_run ≡ true
      → (k.results ≡ [])
        ⊎ ((k.results ≡ answer last) × (term_of (find_search last searches) ≡ some (trim k.search)))

is_below-suc : (n : ℕ) (ss : List Search) → is_below n ss ≡ true → is_below (suc n) ss ≡ true
is_below-suc n [] h = refl
is_below-suc n (s ∷ ss) h = ground (arith, is_below-suc n ss)

are_for-suc :
    (n : ℕ) (t : String) (ss : List Search) → is_below n ss ≡ true → are_for (suc n) t ss ≡ true
are_for-suc n t [] h = refl
are_for-suc n t (s ∷ ss) h = ground (arith, are_for-suc n t ss)

find-for :
    (m n : ℕ) (t : String) (s : Search) (ss : List Search)
    → are_for n t ss ≡ true
    → find_search m ss ≡ some s
    → s.request_id ≡ n
    → (s.term ≡ t) × (s.search_request_id ≡ m)
find-for m n t s [] a f e = ground arith
find-for m n t s (x ∷ ss) a f e = ground (arith, find-for m n t s ss, eq_iff x.term t)

module _ (answer : ℕ → List User) where
  hidden-IsLatest :
      (last : ℕ) (ss : List Search) (k : Picker)
      → IsLatest answer last ss k
      → IsLatest answer last ss (hide k)
  hidden-IsLatest last ss k h = ground arith

  pub Keeps-IsLatest :
      (last : ℕ) (ss : List Search) (k l : Picker)
      → Keeps k l
      → IsLatest answer last ss k
      → IsLatest answer last ss l
  Keeps-IsLatest last ss k l (inl e) h = rw e h
  Keeps-IsLatest last ss k l (inr e) h = rw e (hidden-IsLatest last ss k h)

  -- a picker with the next number and no users
  pub fresh-IsLatest :
      (last : ℕ) (ss : List Search) (k l : Picker)
      → IsLatest answer last ss k
      → l.request_id ≡ suc k.request_id
      → l.has_run ≡ false
      → l.results ≡ []
      → IsLatest answer last ss l
  fresh-IsLatest last ss k l h e r n =
      ground
        (arith, h.below, is_below-suc k.request_id ss, are_for-suc k.request_id (trim l.search) ss)

  pub searched-IsLatest :
      (last : ℕ) (searched : Bool) (text : String) (ss : List Search) (k : Picker)
      → IsLatest answer last ss k
      → IsLatest answer
          (suc last)
          (record {
            request_id = suc k.request_id;
            search_request_id = suc last;
            term = trim text;
            searched = searched;
          }
            ∷ ss)
          (typed text k)
  searched-IsLatest last searched text ss k h = ground (
    arith,
    h.below,
    eq_refl (trim text),
    is_below-suc k.request_id ss,
    are_for-suc k.request_id (trim text) ss,
  )

  pub answered-IsLatest :
      (last : ℕ) (s : Search) (ss : List Search) (k : Picker)
      → IsLatest answer last ss k
      → find_search last ss ≡ some s
      → s.request_id ≡ k.request_id
      → IsLatest answer last ss (record k {
        results = if s.searched then answer last else [];
        has_run = s.searched;
        pending = false;
      })
  answered-IsLatest last s ss k h f e =
      ground (arith, h.below, h.asked, find-for last k.request_id (trim k.search) s ss)

  pub refused-IsLatest :
      (last : ℕ) (error : String) (ss : List Search) (k : Picker)
      → IsLatest answer last ss k
      → IsLatest answer last ss
          (record k { results = []; has_run = true; pending = false; error = error })
  refused-IsLatest last error ss k h = ground arith

  pub bumped-IsLatest :
      (last : ℕ) (ss : List Search) (k : Picker)
      → IsLatest answer last ss k
      → IsLatest answer last ss (record k { request_id = suc k.request_id })
  bumped-IsLatest last ss k h =
      ground
        (arith, h.below, is_below-suc k.request_id ss, are_for-suc k.request_id (trim k.search) ss)
