-- ===== src/Debug/Bare.antt =====
-- Results of the redaction that hold no object as it is: webapp/src/utils/debug.js.
use Prim.Native.Nat.{ℕ, zero, suc}
use mattermost_plugin_voices.Base.{
  String, Bool, true, false, ◌&&◌, some, List, [], ◌∷◌, ◌≡◌, inl, inr, all, arith, Bool-cases,
  Option-cases,
}
use mattermost_plugin_voices.Debug.{
  Value, scalar, ref, Object, error, array, plain, opaque, Heap, object_at, Items, no_item, item,
  Fields, no_field, field, Output, same, text, list, object, Sanitizer, is_sensitive,
  sanitize_items, sanitize_fields, sanitize_object, sanitize_value, sanitize_debug_args,
}
use mattermost_plugin_voices.Debug.Below.{is_shown, FieldsAlike, ObjectsAlike}

abbrev pub is_scalar : Value → Bool
is_scalar (scalar s) = true
is_scalar (ref i) = false

-- An error's name and message are no objects.
abbrev pub is_plain_error : Object → Bool
is_plain_error (error name message) = is_scalar name && is_scalar message
is_plain_error _ = true

-- No value of the output is an object that is passed on as it is.
abbrev mutual
  pub are_bare : Items → Bool
  are_bare no_item = true
  are_bare (item o os) = is_bare o && are_bare os

  pub are_bare_fields : Fields → Bool
  are_bare_fields no_field = true
  are_bare_fields (field key o fs) = is_bare o && are_bare_fields fs

  pub is_bare : Output → Bool
  is_bare (same v) = is_scalar v
  is_bare (text s) = true
  is_bare (list os) = are_bare os
  is_bare (object fs) = are_bare_fields fs

module _ (shown : ℕ → Bool) where
  -- f gives bare outputs for shown values
  Strips : Sanitizer → Type 0
  Strips f =
      (v : Value) (seen : List ℕ) (o : Output) (after : List ℕ)
      → is_shown shown v ≡ true
      → f v seen ≡ some (o, after)
      → is_bare o ≡ true

  items-Strips :
      (f : Sanitizer)
      → Strips f
      → (vs : List Value) (seen : List ℕ) (os : Items) (after : List ℕ)
      → all (is_shown shown) vs ≡ true
      → sanitize_items f vs seen ≡ some (os, after)
      → are_bare os ≡ true
  unfolding sanitize_items Strips
  items-Strips f h [] seen os after a e = ground arith
  items-Strips f h (v ∷ vs) seen os after a e = elim (Option-cases (f v seen)) [
    | inl n ↦ absurd (ground arith)
    | inr ((o, mid), k) ↦ elim (Option-cases (sanitize_items f vs mid)) [
      | inl n ↦ absurd (ground arith)
      | inr ((rest, last), r) ↦ ground (
        arith,
        h v seen o mid (ground arith) k,
        items-Strips f h vs mid rest last (ground arith) r,
      )
    ]
  ]

  fields-Strips :
      (f : Sanitizer)
      → Strips f
      → (vs gs : List (String × Value)) (seen : List ℕ) (fs : Fields) (after : List ℕ)
      → FieldsAlike shown vs gs
      → sanitize_fields f vs seen ≡ some (fs, after)
      → are_bare_fields fs ≡ true
  unfolding sanitize_fields Strips
  fields-Strips f h [] gs seen fs after a e = ground arith
  fields-Strips f h (x ∷ vs) [] seen fs after a e = absurd a
  fields-Strips f h ((k, v) ∷ vs) ((l, w) ∷ gs) seen fs after a e =
      elim (Bool-cases (is_sensitive k)) [
        | inl s ↦ elim (Option-cases (sanitize_fields f vs seen)) [
          | inl n ↦ absurd (ground arith)
          | inr ((rest, last), r) ↦ ground (arith, s, fields-Strips f h vs gs seen rest last a.2 r)
        ]
        | inr s ↦ elim (Option-cases (f v seen)) [
          | inl n ↦ absurd (ground arith)
          | inr ((o, mid), q) ↦ elim (Option-cases (sanitize_fields f vs mid)) [
            | inl n ↦ absurd (ground arith)
            | inr ((rest, last), r) ↦
                ground (
                  arith,
                  s,
                  h v seen o mid (a.1 s).1 q,
                  fields-Strips f h vs gs mid rest last a.2 r,
                )
          ]
        ]
      ]

  object-Strips :
      (f : Sanitizer) (i : ℕ)
      → Strips f
      → (x y : Object) (seen : List ℕ) (o : Output) (after : List ℕ) → ObjectsAlike shown x y
      → is_plain_error x ≡ true
      → sanitize_object f i x seen ≡ some (o, after)
      → is_bare o ≡ true
  unfolding sanitize_object
  object-Strips f i h (error n m) y seen o after a p e = ground arith
  object-Strips f i h (opaque n) y seen o after a p e = ground arith
  object-Strips f i h (array vs) (array ws) seen o after a p e =
      elim (Option-cases (sanitize_items f vs (i ∷ seen))) [
        | inl n ↦ absurd (ground arith)
        | inr ((os, last), r) ↦ ground (arith, items-Strips f h vs (i ∷ seen) os last a.1 r)
      ]
  object-Strips f i h (plain vs) (plain gs) seen o after a p e =
      elim (Option-cases (sanitize_fields f vs (i ∷ seen))) [
        | inl n ↦ absurd (ground arith)
        | inr ((fs, last), r) ↦ ground (arith, fields-Strips f h vs gs (i ∷ seen) fs last a r)
      ]
  object-Strips f i h (array vs) (error n m) seen o after a p e = absurd a
  object-Strips f i h (array vs) (plain gs) seen o after a p e = absurd a
  object-Strips f i h (array vs) (opaque n) seen o after a p e = absurd a
  object-Strips f i h (plain vs) (error n m) seen o after a p e = absurd a
  object-Strips f i h (plain vs) (array ws) seen o after a p e = absurd a
  object-Strips f i h (plain vs) (opaque n) seen o after a p e = absurd a

  module _ (h k : Heap)
      (alike : (i : ℕ) → shown i ≡ true → ObjectsAlike shown (object_at h i) (object_at k i))
      (bare : (i : ℕ) → shown i ≡ true → is_plain_error (object_at h i) ≡ true) where
    value-Strips : (fuel : ℕ) → Strips (sanitize_value h fuel)
    unfolding Strips sanitize_value
    value-Strips zero v seen o after s e = absurd (ground arith)
    value-Strips (suc fuel) (scalar v) seen o after s e = ground arith
    value-Strips (suc fuel) (ref i) seen o after s e = ground (
      arith,
      object-Strips (sanitize_value h fuel) i (value-Strips fuel) (object_at h i) (object_at k i)
          seen o after (alike i s) (bare i s),
    )

    pub args-Bare :
        (fuel : ℕ) (args : List Value) (os : Items)
        → all (is_shown shown) args ≡ true
        → sanitize_debug_args h fuel args ≡ some os
        → are_bare os ≡ true
    unfolding sanitize_debug_args
    args-Bare fuel args os s e =
        elim (Option-cases (sanitize_items (sanitize_value h fuel) args [])) [
          | inl n ↦ absurd (ground arith)
          | inr ((rest, last), r) ↦ ground (
            arith,
            items-Strips (sanitize_value h fuel) (value-Strips fuel) args [] rest last s r,
          )
        ]
