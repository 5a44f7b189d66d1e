-- ===== src/Debug/Redacts.antt =====
-- What the log shows of values: webapp/src/utils/debug.js.
use Prim.Native.Nat.{ℕ, suc, ◌+◌, ◌<◌}
use mattermost_plugin_voices.Base.{
  Bool, true, Option, none, some, List, ◌≡◌, sym, ◌∙◌, all, length, arith,
}
use mattermost_plugin_voices.Debug.{
  Value, Heap, object_at, Items, Storage, Process, sanitize_debug_args, debug,
}
use mattermost_plugin_voices.Debug.Terminates.{sanitize_debug_args-Returns}
use mattermost_plugin_voices.Debug.Bare.{are_bare, is_plain_error, args-Bare}
use mattermost_plugin_voices.Debug.Below.{Below, is_shown, HeapsAlike, args-Below, more_fuel}

-- A result that is there and below another is the other.
settled : {A : Type 0} (o p : Option A) (a : A) → o ≡ some a → Below o p → p ≡ some a
settled o p a e b = ground arith

-- For any objects, also when they hold one another in a circle, the redaction of the arguments of a
-- log line ends with a result at a depth of calls that is at most one more than the number of objects,
-- and any greater bound on the depth gives the same result.
pub sanitize_ends :
    (heap : Heap) (args : List Value)
    → (os : Items) × ((fuel : ℕ)
        → length heap < fuel
        → sanitize_debug_args heap fuel args ≡ some os)
sanitize_ends heap args =
    let r = sanitize_debug_args-Returns heap args in
    (
      r.0,
      λ fuel l.
          settled _ _ r.0 r.1 (more_fuel heap (suc (length heap)) fuel (omega (arith, l)) args),
    )

-- The log line, if there is one, has no object that is passed on as it is.
abbrev pub shows_no_object : Option (Option Items) → Bool
shows_no_object none = true
shows_no_object (some none) = true
shows_no_object (some (some os)) = are_bare os

-- What the log hides stays hidden. Let two pages have alike objects under each number of a set: plain
-- objects with the same keys, and the same values under the keys that are not sensitive, arrays with
-- the same elements, errors with the same name and message, which are no objects, or others with the
-- same constructor. Let each object among the arguments of a log line, among the elements of such an
-- array, and under a key of such an object that is not sensitive, have a number of the set. Then both
-- pages log the same, whatever they hold under sensitive keys and in their other objects, and the line
-- passes no object on as it is.
pub debug_hides :
    (shown : ℕ → Bool) (h k : Heap) (stored : Storage) (page : Process) (args : List Value)
    → HeapsAlike shown h k
    → ((i : ℕ) → shown i ≡ true → is_plain_error (object_at h i) ≡ true)
    → all (is_shown shown) args ≡ true
    → (debug stored page h args ≡ debug stored page k args)
      × (shows_no_object (debug stored page h args) ≡ true)
unfolding debug
debug_hides shown h k stored page args a p s =
    let r = sanitize_ends h args in
    let q = sanitize_ends k args in
    let high = suc (length h) + suc (length k) in
    let own = r.1 (suc (length h)) (omega arith) in
    let e =
      settled _ _ r.0 own (args-Below shown h k a (suc (length h)) high (omega arith) args s) in
    let same = sym e ∙ q.1 high (omega arith) in
    let bare = args-Bare shown h k a p (suc (length h)) args r.0 s own in
    (ground (arith, own, q.1 (suc (length k)) (omega arith), same), ground (arith, own, bare))
