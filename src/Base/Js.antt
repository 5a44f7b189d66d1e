-- ===== src/Base/Js.antt =====
-- JavaScript values as they arrive from JSON and from the signalling hub, with the property reads
-- and tests that the code makes of them. Numbers are those that the protocol carries, not negative
-- and whole.
use Prim.Native.Nat.{ℕ}
use Prim.Native.String.{String}
use text.Mathlib.Text.{◌==◌}
use mathlib.Core.Bool.{Bool, true, false, not}
use mattermost_plugin_voices.Base.Tests.{if◌then◌else◌, eqb, is_set}

mutual
  -- the properties of an object, in the order in which they were added
  pub data Fields : Type 0 where
    end : Fields
    field : (name : String) (value : Value) → Fields → Fields

  -- the elements of an array
  pub data Items : Type 0 where
    no_item : Items
    item : (value : Value) → Items → Items

  pub data Value : Type 0 where
    undef null : Value
    bool : Bool → Value
    num : ℕ → Value
    str : String → Value
    obj : Fields → Value
    arr : Items → Value

abbrev pub lookup : String → Fields → Value
lookup k end = undef
lookup k (field j v fs) = if j == k then v else lookup k fs

-- `Object.assign({}, o, {k: v})`: the value that a later read of `k` sees is `v`.
abbrev pub assign : String → Value → Fields → Fields
assign k v end = field k v end
assign k v (field j w fs) = if j == k then field k v fs else field j w (assign k v fs)

-- `x.k` for a value `x` that is neither null nor undefined
abbrev pub get : String → Value → Value
get k (obj fs) = lookup k fs
get k _ = undef

abbrev pub truthy : Value → Bool
truthy undef = false
truthy null = false
truthy (bool b) = b
truthy (num n) = not (eqb n 0)
truthy (str s) = is_set s
truthy (arr xs) = true
truthy (obj fs) = true

abbrev pub is_object : Value → Bool
is_object (obj fs) = true
is_object _ = false

-- `v === s` for a text `s`
abbrev pub is_text : Value → String → Bool
is_text (str t) s = t == s
is_text _ s = false

-- `v === n` for a number `n`
abbrev pub is_num : Value → ℕ → Bool
is_num (num m) n = eqb m n
is_num _ n = false

-- `a || b`
abbrev pub or_value : Value → Value → Value
or_value a b = if truthy a then a else b

-- a value that the code goes on to use as a text
abbrev pub text_of : Value → String
text_of (str s) = s
text_of _ = ""
