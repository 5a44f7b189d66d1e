-- ===== src/Debug/Tests.antt =====
-- Concrete values for the log: objects that hold one another, and keys that are redacted.
use Prim.Native.Nat.{ℕ, zero, suc}
use mathlib.Core.Bool.{false≢true}
use mattermost_plugin_voices.Base.{
  Bool, true, false, some, [], ◌∷◌, ◌≡◌, refl, sym, eqb, arith, ◌<◌,
}
use mattermost_plugin_voices.Debug.{
  scalar, ref, str, num, Object, plain, array, Heap, Items, no_item, item, no_field, field, text,
  object, list, holds, node_env, is_sensitive, has_word, sanitize_value, sanitize_debug_args, debug,
  object_at,
}
use mattermost_plugin_voices.Debug.Redacts.{shows_no_object, sanitize_ends, debug_hides}
use mattermost_plugin_voices.Debug.Bare.{is_plain_error}
use mattermost_plugin_voices.Debug.Below.{ObjectsAlike}

-- two objects that hold one another
abbrev circle : Heap
circle = plain (("next", ref 1) ∷ []) ∷ plain (("next", ref 0) ∷ []) ∷ []

circle_test :
    sanitize_debug_args circle 3 (ref 0 ∷ [])
    ≡ some (
        item
          (object (field "next" (object (field "next" (text "[Circular]") no_field)) no_field))
          no_item)
unfolding sanitize_debug_args sanitize_value is_sensitive has_word
circle_test = refl

-- one object twice in an array, which is no circle
shared_test :
    sanitize_debug_args (array (ref 1 ∷ ref 1 ∷ []) ∷ plain [] ∷ []) 3 (ref 0 ∷ [])
    ≡ some (item (list (item (object no_field) (item (text "[Circular]") no_item))) no_item)
unfolding sanitize_debug_args sanitize_value
shared_test = refl

sensitive_test :
    (is_sensitive "X-CSRF-Token" ≡ true)
    × (is_sensitive "iceServers" ≡ true)
    × (is_sensitive "voiceRoom" ≡ true)
    × (is_sensitive "device" ≡ true)
    × (is_sensitive "roomId" ≡ false)
unfolding is_sensitive has_word
sensitive_test = (refl, refl, refl, refl, refl)

sanitize_ends_example :
    (os : Items) × ((fuel : ℕ) → 2 < fuel → sanitize_debug_args circle fuel (ref 0 ∷ []) ≡ some os)
sanitize_ends_example = sanitize_ends circle (ref 0 ∷ [])

-- a page with a credential, which is an object, and a room
abbrev page : (secret : Object) → Heap
page secret = plain (("credential", ref 1) ∷ ("room", scalar (str "r1")) ∷ []) ∷ secret ∷ []

abbrev first : ℕ → Bool
first i = eqb i 0

debug_hides_example :
    (debug (holds (some "true")) (node_env (some "production")) (page (plain [])) (ref 0 ∷ [])
      ≡ debug
          (holds (some "true"))
          (node_env (some "production"))
          (page (array (scalar (num 7) ∷ [])))
          (ref 0 ∷ []))
    × (shows_no_object (
          debug (holds (some "true")) (node_env (some "production")) (page (plain [])) (ref 0 ∷ []))
        ≡ true)
unfolding is_sensitive has_word
debug_hides_example =
    debug_hides first (page (plain [])) (page (array (scalar (num 7) ∷ []))) (holds (some "true"))
      (node_env (some "production")) (ref 0 ∷ []) alike bare refl
  where
    bare : (i : ℕ) → first i ≡ true → is_plain_error (object_at (page (plain [])) i) ≡ true
    bare zero e = refl
    bare (suc i) e = absurd (ground arith)

    alike :
        (i : ℕ)
        → first i ≡ true
        → ObjectsAlike first
            (object_at (page (plain [])) i)
            (object_at (page (array (scalar (num 7) ∷ []))) i)
    alike zero e = (refl, λ s. absurd (false≢true (sym s)), (refl, λ s. (refl, refl), tt))
    alike (suc i) e = absurd (ground arith)
