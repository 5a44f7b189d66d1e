-- ===== src/Base/Tests.antt =====
-- Tests: the conditional, JavaScript's truthiness of texts and of nullable texts, and equality of
-- numbers, texts and nullable texts.
use Prim.Native.Nat.{ℕ, compare, Ordering}
use Prim.Native.String.{String}
use text.Mathlib.Text.{◌==◌}
use text.Mathlib.TextEquality.{eq_iff}
use mathlib.Core.Path.{◌≡◌, refl}
use mathlib.Core.Logic.{◌⊎◌, inl, inr}
use mathlib.Core.Bool.{Bool, true, false, not}
use mathlib.Core.Option.{Option, none, some}
use native.Mathlib.Omega.{arith}

infix 1 if◌then◌else◌
abbrev pub if◌then◌else◌ {ℓ} : {A : Type ℓ} → Bool → A → A → A
if true then x else y = x
if false then x else y = y

abbrev pub ltb : ℕ → ℕ → Bool
ltb a b = elim (compare a b) [ Ordering.lt ↦ true | _ ↦ false ]

abbrev pub leb : ℕ → ℕ → Bool
leb a b = elim (compare a b) [ Ordering.gt ↦ false | _ ↦ true ]

abbrev pub eqb : ℕ → ℕ → Bool
eqb a b = elim (compare a b) [ Ordering.eq ↦ true | _ ↦ false ]

-- A text is truthy when it is not empty.
abbrev pub is_set : String → Bool
is_set s = not (s == "")

abbrev pub is_some {ℓ} : {A : Type ℓ} → Option A → Bool
is_some none = false
is_some (some a) = true

-- A nullable text is truthy when it is a text that is not empty.
abbrev pub present : Option String → Bool
present none = false
present (some s) = is_set s

-- `s || null`
abbrev pub or_null : String → Option String
or_null s = if is_set s then some s else none

-- `s || null` for a nullable text
abbrev pub null_or : Option String → Option String
null_or none = none
null_or (some s) = or_null s

-- `s || t`
abbrev pub or_else : String → String → String
or_else s t = if is_set s then s else t

-- `===` on nullable texts
abbrev pub same : Option String → Option String → Bool
same none none = true
same (some a) (some b) = a == b
same none (some b) = false
same (some a) none = false

pub same→eq : (a b : Option String) → same a b ≡ true → a ≡ b
same→eq none none h = refl
same→eq (some a) (some b) h = ground (arith, eq_iff a b)
same→eq none (some b) h = ground arith
same→eq (some a) none h = ground arith

pub same_refl : (a : Option String) → same a a ≡ true
same_refl none = refl
same_refl (some a) = (eq_iff a a).1 refl

pub Bool-cases : (b : Bool) → (b ≡ true) ⊎ (b ≡ false)
Bool-cases true = inl refl
Bool-cases false = inr refl

pub Option-cases {ℓ} : {A : Type ℓ} (o : Option A) → (o ≡ none) ⊎ ((a : A) × (o ≡ some a))
Option-cases none = inl refl
Option-cases (some a) = inr (a, refl)
