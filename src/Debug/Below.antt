-- ===== src/Debug/Below.antt =====
-- Results of the redaction under more fuel, and under what the log hides:
-- webapp/src/utils/debug.js.
use Prim.Native.Nat.{ℕ, zero, suc, ◌≤◌}
use mattermost_plugin_voices.Base.{
  String, Bool, true, false, Option, none, List, [], ◌∷◌, ◌≡◌, refl, ◌⊎◌, inl, inr, all, arith,
  Bool-cases, Option-cases,
}
use mattermost_plugin_voices.Debug.{
  Value, scalar, ref, Object, error, array, plain, opaque, Heap, object_at, Sanitizer, is_sensitive,
  sanitize_items, sanitize_fields, sanitize_object, sanitize_value, sanitize_debug_args,
}

-- A result that is p, or that is not there yet.
abbrev pub Below : {A : Type 0} → (o p : Option A) → Type 0
Below o p = (o ≡ none) ⊎ (o ≡ p)

-- a value that is no object, or one of the chosen objects
abbrev pub is_shown : (ℕ → Bool) → Value → Bool
is_shown shown (scalar s) = true
is_shown shown (ref i) = shown i

-- The same keys in the same order, with the same shown value under each that is not sensitive.
abbrev pub FieldsAlike : (shown : ℕ → Bool) (fs gs : List (String × Value)) → Type 0
FieldsAlike shown [] [] = Unit {0}
FieldsAlike shown ((k, v) ∷ fs) ((l, w) ∷ gs) =
    (k ≡ l)
    × (is_sensitive k ≡ false → (v ≡ w) × (is_shown shown v ≡ true))
    × FieldsAlike shown fs gs
FieldsAlike shown _ _ = ⊥

abbrev pub ObjectsAlike : (shown : ℕ → Bool) (o p : Object) → Type 0
ObjectsAlike shown (error n m) (error a b) = (n ≡ a) × (m ≡ b)
ObjectsAlike shown (array vs) (array ws) = (vs ≡ ws) × (all (is_shown shown) vs ≡ true)
ObjectsAlike shown (plain fs) (plain gs) = FieldsAlike shown fs gs
ObjectsAlike shown (opaque a) (opaque b) = a ≡ b
ObjectsAlike shown _ _ = ⊥

module _ (shown : ℕ → Bool) where
  -- g gives what f gives, for each shown value
  SanitizerBelow : Sanitizer → Sanitizer → Type 0
  SanitizerBelow f g =
      (v : Value) (seen : List ℕ) → is_shown shown v ≡ true → Below (f v seen) (g v seen)

  items-Below :
      (f g : Sanitizer)
      → SanitizerBelow f g
      → (vs : List Value) (seen : List ℕ) → all (is_shown shown) vs ≡ true
      → Below (sanitize_items f vs seen) (sanitize_items g vs seen)
  unfolding sanitize_items SanitizerBelow
  items-Below f g h [] seen a = inr refl
  items-Below f g h (v ∷ vs) seen a = elim (Option-cases (f v seen)) [
    | inl e ↦ inl (ground arith)
    | inr ((o, after), e) ↦
        ground (arith, e, h v seen (ground arith), items-Below f g h vs after (ground arith))
  ]

  fields-Below :
      (f g : Sanitizer)
      → SanitizerBelow f g
      → (fs gs : List (String × Value)) (seen : List ℕ) → FieldsAlike shown fs gs
      → Below (sanitize_fields f fs seen) (sanitize_fields g gs seen)
  unfolding sanitize_fields SanitizerBelow
  fields-Below f g h [] [] seen a = inr refl
  fields-Below f g h [] (x ∷ gs) seen a = absurd a
  fields-Below f g h (x ∷ fs) [] seen a = absurd a
  fields-Below f g h ((k, v) ∷ fs) ((l, w) ∷ gs) seen a = elim (Bool-cases (is_sensitive k)) [
    | inl s ↦ ground (arith, s, a.0, fields-Below f g h fs gs seen a.2)
    | inr s ↦ elim (Option-cases (f v seen)) [
      | inl e ↦ inl (ground arith)
      | inr ((o, after), e) ↦
          ground (arith, s, a.0, e, a.1 s, h v seen (a.1 s).1, fields-Below f g h fs gs after a.2)
    ]
  ]

  object-Below :
      (f g : Sanitizer) (i : ℕ)
      → SanitizerBelow f g
      → (o p : Object) (seen : List ℕ) → ObjectsAlike shown o p
      → Below (sanitize_object f i o seen) (sanitize_object g i p seen)
  unfolding sanitize_object
  object-Below f g i h (error n m) (error a b) seen e = inr (cc)
  object-Below f g i h (array vs) (array ws) seen e =
      ground (arith, e.0, items-Below f g h vs (i ∷ seen) e.1)
  object-Below f g i h (plain fs) (plain gs) seen e =
      ground (arith, fields-Below f g h fs gs (i ∷ seen) e)
  object-Below f g i h (opaque a) (opaque b) seen e = inr (cc)
  object-Below f g i h (error n m) (array ws) seen e = absurd e
  object-Below f g i h (error n m) (plain gs) seen e = absurd e
  object-Below f g i h (error n m) (opaque b) seen e = absurd e
  object-Below f g i h (array vs) (error a b) seen e = absurd e
  object-Below f g i h (array vs) (plain gs) seen e = absurd e
  object-Below f g i h (array vs) (opaque b) seen e = absurd e
  object-Below f g i h (plain fs) (error a b) seen e = absurd e
  object-Below f g i h (plain fs) (array ws) seen e = absurd e
  object-Below f g i h (plain fs) (opaque b) seen e = absurd e
  object-Below f g i h (opaque a) (error n m) seen e = absurd e
  object-Below f g i h (opaque a) (array ws) seen e = absurd e
  object-Below f g i h (opaque a) (plain gs) seen e = absurd e

  -- The two heaps have alike objects under each shown number.
  abbrev pub HeapsAlike : (h k : Heap) → Type 0
  HeapsAlike h k = (i : ℕ) → shown i ≡ true → ObjectsAlike shown (object_at h i) (object_at k i)

  value-Below :
      (h k : Heap)
      → HeapsAlike h k
      → (fuel enough : ℕ) → fuel ≤ enough
      → SanitizerBelow (sanitize_value h fuel) (sanitize_value k enough)
  unfolding SanitizerBelow sanitize_value
  value-Below h k a zero enough l v seen s = inl refl
  value-Below h k a (suc fuel) zero l v seen s = absurd (omega (arith, l))
  value-Below h k a (suc fuel) (suc enough) l (scalar v) seen s = inr refl
  value-Below h k a (suc fuel) (suc enough) l (ref i) seen s = ground (
    arith,
    object-Below (sanitize_value h fuel) (sanitize_value k enough) i
        (value-Below h k a fuel enough (omega (arith, l))) (object_at h i) (object_at k i) seen
        (a i s),
  )

  pub args-Below :
      (h k : Heap)
      → HeapsAlike h k
      → (fuel enough : ℕ) → fuel ≤ enough
      → (args : List Value) → all (is_shown shown) args ≡ true
      → Below (sanitize_debug_args h fuel args) (sanitize_debug_args k enough args)
  unfolding sanitize_debug_args
  args-Below h k a fuel enough l args s = ground (
    arith,
    items-Below (sanitize_value h fuel) (sanitize_value k enough) (value-Below h k a fuel enough l)
        args [] s,
  )

-- A heap is alike itself, with every object shown.
abbrev everything : ℕ → Bool
everything i = true

shown-everything : (v : Value) → is_shown everything v ≡ true
shown-everything (scalar s) = refl
shown-everything (ref i) = refl

all-shown : (vs : List Value) → all (is_shown everything) vs ≡ true
all-shown [] = refl
all-shown (v ∷ vs) = ground (arith, shown-everything v, all-shown vs)

FieldsAlike-refl : (fs : List (String × Value)) → FieldsAlike everything fs fs
FieldsAlike-refl [] = tt
FieldsAlike-refl ((k, v) ∷ fs) = (refl, λ s. (refl, shown-everything v), FieldsAlike-refl fs)

ObjectsAlike-refl : (o : Object) → ObjectsAlike everything o o
ObjectsAlike-refl (error n m) = (refl, refl)
ObjectsAlike-refl (array vs) = (refl, all-shown vs)
ObjectsAlike-refl (plain fs) = FieldsAlike-refl fs
ObjectsAlike-refl (opaque a) = refl

pub more_fuel :
    (h : Heap) (fuel enough : ℕ)
    → fuel ≤ enough
    → (args : List Value)
    → Below (sanitize_debug_args h fuel args) (sanitize_debug_args h enough args)
more_fuel h fuel enough l args =
    args-Below everything h h (λ i s. ObjectsAlike-refl (object_at h i)) fuel enough l args
      (all-shown args)
