-- ===== src/Debug.antt =====
-- The debug log: webapp/src/utils/debug.js. An object of the page is named by its number in a heap, so
-- that two values can hold the same object, and an object itself; a number with no object, which no
-- page has, reads as an object without properties.
pub mod Terminates
pub mod Bare
pub mod Below
pub mod Redacts
mod Tests
use Prim.Native.Nat.{ℕ, zero, suc, ◌+◌}
use Prim.Native.Char.{code}
use Prim.Native.String.{◌++◌ as append}
use mattermost_plugin_voices.Base.{
  String, Bool, true, false, not, ◌&&◌, ◌||◌, Option, none, some, List, [], ◌∷◌, any, contains_id,
  eqb, leb, length, or_else, ◌==◌, if◌then◌else◌,
}

-- A value that is no object, a function among them.
pub data Scalar : Type 0 where
  undef null : Scalar
  bool : Bool → Scalar
  num : ℕ → Scalar
  str : String → Scalar
  function : (id : ℕ) → Scalar

pub data Value : Type 0 where
  scalar : Scalar → Value
  ref : ℕ → Value

-- An error is an `instanceof Error`; a plain object has its own enumerable properties in order; any
-- other object has the name of its constructor, or an empty text.
pub data Object : Type 0 where
  error : (name message : Value) → Object
  array : List Value → Object
  plain : List (String × Value) → Object
  opaque : (constructor_name : String) → Object

abbrev pub Heap : Type 0
Heap = List Object

abbrev pub object_at : Heap → ℕ → Object
object_at [] i = opaque ""
object_at (o ∷ heap) zero = o
object_at (o ∷ heap) (suc i) = object_at heap i

-- What is written to the console. A value that is passed on as it is may be an object of the heap,
-- which the console then shows with all that it holds: `same (ref i)`.
mutual
  pub data Items : Type 0 where
    no_item : Items
    item : Output → Items → Items

  pub data Fields : Type 0 where
    no_field : Fields
    field : (key : String) (value : Output) → Fields → Fields

  pub data Output : Type 0 where
    same : Value → Output
    text : String → Output
    list : Items → Output
    object : Fields → Output

-- an ASCII letter in lower case
abbrev pub lower_code : ℕ → ℕ
lower_code c = if leb 65 c && leb c 90 then c + 32 else c

-- a word in lower case stands at the start of a text, in any case
unfoldable pub starts_word : (word s : String) → Bool
starts_word String.[] s = true
starts_word (String.◌∷◌ c w) String.[] = false
starts_word (String.◌∷◌ c w) (String.◌∷◌ d s) =
    eqb (code c) (lower_code (code d)) && starts_word w s

unfoldable pub has_word : (word s : String) → Bool
unfolding starts_word
has_word w String.[] = starts_word w ""
has_word w (String.◌∷◌ c s) = starts_word w (String.◌∷◌ c s) || has_word w s

-- the words of `sensitiveKeyPattern`
abbrev pub sensitive_words : List String
sensitive_words =
    "authorization" ∷ "candidate" ∷ "cookie" ∷ "credential" ∷ "ice" ∷ "password" ∷ "sdp" ∷ "secret"
    ∷ "token" ∷ "turn" ∷ []

-- `sensitiveKeyPattern.test(key)`
unfoldable pub is_sensitive : (key : String) → Bool
unfolding has_word
is_sensitive key = any (λ w. has_word w key) sensitive_words

-- `opaqueObjectName`
abbrev pub opaque_object_name : (constructor_name : String) → String
opaque_object_name name = append "[" (append (or_else name "Object") "]")

-- What a call of `sanitizeValue` gives: the value and the objects that were seen, or nothing when the
-- calls are nested deeper than the fuel.
abbrev pub Sanitizer : Type 0
Sanitizer = Value → (seen : List ℕ) → Option (Output × List ℕ)

abbrev pub then_item : Output → Option (Items × List ℕ) → Option (Items × List ℕ)
then_item o none = none
then_item o (some (os, seen)) = some (item o os, seen)

abbrev pub then_field :
    (key : String) → Output → Option (Fields × List ℕ) → Option (Fields × List ℕ)
then_field key o none = none
then_field key o (some (fs, seen)) = some (field key o fs, seen)

-- `value.map(…)`
unfoldable pub sanitize_items : Sanitizer → List Value → (seen : List ℕ) → Option (Items × List ℕ)
sanitize_items f [] seen = some (no_item, seen)
sanitize_items f (v ∷ vs) seen = elim (f v seen) [
  | none ↦ none
  | some (o, after) ↦ then_item o (sanitize_items f vs after)
]

-- `Object.keys(value).reduce(…)`
unfoldable pub sanitize_fields :
    Sanitizer → List (String × Value) → (seen : List ℕ) → Option (Fields × List ℕ)
sanitize_fields f [] seen = some (no_field, seen)
sanitize_fields f ((key, v) ∷ fields) seen = elim (is_sensitive key) [
  | true ↦ then_field key (text "[REDACTED]") (sanitize_fields f fields seen)
  | false ↦ elim (f v seen) [
    | none ↦ none
    | some (o, after) ↦ then_field key o (sanitize_fields f fields after)
  ]
]

abbrev pub as_list : Option (Items × List ℕ) → Option (Output × List ℕ)
as_list none = none
as_list (some (os, seen)) = some (list os, seen)

abbrev pub as_object : Option (Fields × List ℕ) → Option (Output × List ℕ)
as_object none = none
as_object (some (fs, seen)) = some (object fs, seen)

-- the object with the number i that was not seen, its entries by `f`
unfoldable pub sanitize_object :
    Sanitizer → (i : ℕ) → Object → (seen : List ℕ) → Option (Output × List ℕ)
unfolding sanitize_items sanitize_fields
sanitize_object f i (error name message) seen =
    some (object (field "name" (same name) (field "message" (same message) no_field)), seen)
sanitize_object f i (array vs) seen = as_list (sanitize_items f vs (i ∷ seen))
sanitize_object f i (plain fields) seen = as_object (sanitize_fields f fields (i ∷ seen))
sanitize_object f i (opaque name) seen = some (text (opaque_object_name name), seen)

-- `sanitizeValue`
unfoldable pub sanitize_value : (heap : Heap) (fuel : ℕ) → Sanitizer
unfolding sanitize_object
sanitize_value heap zero v seen = none
sanitize_value heap (suc fuel) (scalar s) seen = some (same (scalar s), seen)
sanitize_value heap (suc fuel) (ref i) seen = elim (contains_id i seen) [
  | true ↦ some (text "[Circular]", seen)
  | false ↦ sanitize_object (sanitize_value heap fuel) i (object_at heap i) seen
]

abbrev pub outputs : Option (Items × List ℕ) → Option Items
outputs none = none
outputs (some (os, seen)) = some os

-- `sanitizeDebugArgs`
unfoldable pub sanitize_debug_args : (heap : Heap) (fuel : ℕ) (args : List Value) → Option Items
unfolding sanitize_value
sanitize_debug_args heap fuel args = outputs (sanitize_items (sanitize_value heap fuel) args [])

-- What the page has under the storage key: a page with no window, a storage that throws, and an item
-- that may be missing.
pub data Storage : Type 0 where
  no_window throws no_storage : Storage
  holds : Option String → Storage

-- `safeStorageValue`
abbrev pub safe_storage_value : Storage → Option String
safe_storage_value (holds v) = v
safe_storage_value _ = none

-- `process.env.NODE_ENV`, of a page that may have no `process`
pub data Process : Type 0 where
  no_process : Process
  node_env : Option String → Process

abbrev pub is_value : String → Option String → Bool
is_value s none = false
is_value s (some t) = t == s

abbrev pub is_production : Process → Bool
is_production no_process = false
is_production (node_env e) = is_value "production" e

-- `isDebugEnabled`
unfoldable pub is_debug_enabled : Storage → Process → Bool
is_debug_enabled storage process =
    if is_value "true" (safe_storage_value storage)
    then true
    else if is_value "false" (safe_storage_value storage)
    then false
    else not (is_production process)

-- the default export: what `console.log` is called with, if it is called. The fuel is one more than
-- the number of objects.
unfoldable pub debug : Storage → Process → Heap → (args : List Value) → Option (Option Items)
unfolding is_debug_enabled sanitize_debug_args
debug storage process heap args =
    if is_debug_enabled storage process
    then some (sanitize_debug_args heap (suc (length heap)) args)
    else none
