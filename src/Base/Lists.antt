-- ===== src/Base/Lists.antt =====
-- Lists: length and membership over the native numbers, and predicates by recursion.
use Prim.Native.Nat.{ℕ, suc}
use Prim.Native.String.{String}
use text.Mathlib.Text.{◌==◌}
use mathlib.Core.Path.{◌≡◌, refl}
use mathlib.Core.Bool.{Bool, true, false, ◌||◌, ◌&&◌}
use mathlib.Core.List.{List, [], ◌∷◌, ◌++◌}
use native.Mathlib.Omega.{arith}
use mattermost_plugin_voices.Base.Tests.{if◌then◌else◌, eqb}

module _ {ℓ} {A : Type ℓ} where
  abbrev pub length : List A → ℕ
  length [] = 0
  length (x ∷ xs) = suc (length xs)

  -- A log keeps the newest entry first: `push xs log` appends `xs`, in their order.
  abbrev pub push : List A → List A → List A
  push [] log = log
  push (x ∷ xs) log = push xs (x ∷ log)

  abbrev pub any : (A → Bool) → List A → Bool
  any p [] = false
  any p (x ∷ xs) = p x || any p xs

  abbrev pub all : (A → Bool) → List A → Bool
  all p [] = true
  all p (x ∷ xs) = p x && all p xs

  -- JavaScript's `filter`
  abbrev pub keep : (A → Bool) → List A → List A
  keep p [] = []
  keep p (x ∷ xs) = if p x then x ∷ keep p xs else keep p xs

  pub any-push : (p : A → Bool) (xs log : List A) → any p (push xs log) ≡ any p xs || any p log
  any-push p [] log = refl
  any-push p (x ∷ xs) log = ground (arith, any-push p xs (x ∷ log))

  pub any-append : (p : A → Bool) (xs ys : List A) → any p (xs ++ ys) ≡ any p xs || any p ys
  any-append p [] ys = refl
  any-append p (x ∷ xs) ys = ground (arith, any-append p xs ys)

  pub all-append : (p : A → Bool) (xs ys : List A) → all p (xs ++ ys) ≡ all p xs && all p ys
  all-append p [] ys = refl
  all-append p (x ∷ xs) ys = ground (arith, all-append p xs ys)

-- `contains k xs` is `new Set(xs).has(k)`.
abbrev pub contains : String → List String → Bool
contains k xs = any (λ x. x == k) xs

abbrev pub contains_id : ℕ → List ℕ → Bool
contains_id k xs = any (λ x. eqb x k) xs
