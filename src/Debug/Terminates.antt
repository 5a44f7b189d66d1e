-- ===== src/Debug/Terminates.antt =====
-- The redaction of logged values ends, also where objects hold one another in a circle:
-- webapp/src/utils/debug.js.
use Prim.Native.Nat.{ℕ, zero, suc, ◌+◌, ◌<◌, ◌≤◌}
use mattermost_plugin_voices.Base.{
  String, true, false, Option, some, List, [], ◌∷◌, ◌≡◌, refl, ◌∙◌, contains_id, eqb, length, arith,
  Bool-cases, inl, inr, ◌⊎◌, if◌then◌else◌,
}
use mattermost_plugin_voices.Debug.{
  Value, scalar, ref, Object, error, array, plain, opaque, Heap, object_at, Items, Fields, Output,
  no_item, item, no_field, field, same, text, list, object, Sanitizer, is_sensitive, sanitize_items,
  sanitize_fields, sanitize_object, sanitize_value, sanitize_debug_args,
}

-- how many of the first n objects were not seen
unseen : (n : ℕ) (seen : List ℕ) → ℕ
unseen zero seen = 0
unseen (suc n) seen = unseen n seen + (if contains_id n seen then 0 else 1)

unseen-cons : (n i : ℕ) (seen : List ℕ) → unseen n (i ∷ seen) ≤ unseen n seen
unfolding unseen
unseen-cons zero i seen = omega arith
unseen-cons (suc n) i seen = ground (arith, unseen-cons n i seen)

unseen-cons_new :
    (n i : ℕ) (seen : List ℕ)
    → i < n
    → contains_id i seen ≡ false
    → unseen n (i ∷ seen) < unseen n seen
unfolding unseen
unseen-cons_new zero i seen l f = omega arith
unseen-cons_new (suc n) i seen l f = elim (Bool-cases (eqb i n)) [
  | inl e ↦ ground (arith, unseen-cons n i seen)
  | inr e ↦ ground (arith, unseen-cons_new n i seen)
]

array≢opaque : (vs : List Value) → array vs ≡ opaque "" → ⊥
array≢opaque vs e = cc

plain≢opaque : (fields : List (String × Value)) → plain fields ≡ opaque "" → ⊥
plain≢opaque fields e = cc

-- A result that leaves at most m objects unseen of the n.
record Returns {A : Type 0} (n m : ℕ) (r : Option (A × List ℕ)) : Type 0 where
  value : A
  seen : List ℕ
  here : r ≡ some (value, seen)
  fewer : unseen n seen ≤ m

-- the calls that a sanitizer can be trusted with: those that start with less than `fuel` unseen
Total : (n fuel : ℕ) → Sanitizer → Type 0
Total n fuel f =
    (v : Value) (seen : List ℕ) → unseen n seen < fuel → Returns n (unseen n seen) (f v seen)

sanitize_items-cons :
    (f : Sanitizer) (v : Value) (vs : List Value) (seen after last : List ℕ) (o : Output)
    (os : Items)
    → f v seen ≡ some (o, after)
    → sanitize_items f vs after ≡ some (os, last)
    → sanitize_items f (v ∷ vs) seen ≡ some (item o os, last)
unfolding sanitize_items
sanitize_items-cons f v vs seen after last o os e g = ground arith

sanitize_fields-cons :
    (f : Sanitizer) (key : String) (v : Value) (fields : List (String × Value))
    (seen after last : List ℕ) (o : Output) (os : Fields)
    → is_sensitive key ≡ false
    → f v seen ≡ some (o, after)
    → sanitize_fields f fields after ≡ some (os, last)
    → sanitize_fields f ((key, v) ∷ fields) seen ≡ some (field key o os, last)
unfolding sanitize_fields
sanitize_fields-cons f key v fields seen after last o os s e g = ground arith

sanitize_fields-redacted :
    (f : Sanitizer) (key : String) (v : Value) (fields : List (String × Value)) (seen last : List ℕ)
    (os : Fields)
    → is_sensitive key ≡ true
    → sanitize_fields f fields seen ≡ some (os, last)
    → sanitize_fields f ((key, v) ∷ fields) seen ≡ some (field key (text "[REDACTED]") os, last)
unfolding sanitize_fields
sanitize_fields-redacted f key v fields seen last os s g = ground arith

sanitize_value-seen :
    (heap : Heap) (fuel i : ℕ) (seen : List ℕ)
    → contains_id i seen ≡ true
    → sanitize_value heap (suc fuel) (ref i) seen ≡ some (text "[Circular]", seen)
unfolding sanitize_value
sanitize_value-seen heap fuel i seen c = ground arith

sanitize_value-new :
    (heap : Heap) (fuel i : ℕ) (seen : List ℕ)
    → contains_id i seen ≡ false
    → sanitize_value heap (suc fuel) (ref i) seen
      ≡ sanitize_object (sanitize_value heap fuel) i (object_at heap i) seen
unfolding sanitize_value
sanitize_value-new heap fuel i seen c = ground arith

items-Returns :
    (n fuel : ℕ) (f : Sanitizer)
    → Total n fuel f
    → (vs : List Value) (seen : List ℕ) → unseen n seen < fuel
    → Returns n (unseen n seen) (sanitize_items f vs seen)
unfolding sanitize_items Total
items-Returns n fuel f h [] seen l = record {
  value = no_item;
  seen = seen;
  here = refl;
  fewer = omega arith;
}
items-Returns n fuel f h (v ∷ vs) seen l =
    let r = h v seen l in
    let rest = items-Returns n fuel f h vs r.seen (omega (arith, r.fewer)) in
    record {
      value = item r.value rest.value;
      seen = rest.seen;
      here = sanitize_items-cons f v vs seen _ _ _ _ r.here rest.here;
      fewer = omega (arith, r.fewer, rest.fewer);
    }

fields-Returns :
    (n fuel : ℕ) (f : Sanitizer)
    → Total n fuel f
    → (fields : List (String × Value)) (seen : List ℕ) → unseen n seen < fuel
    → Returns n (unseen n seen) (sanitize_fields f fields seen)
unfolding sanitize_fields Total
fields-Returns n fuel f h [] seen l = record {
  value = no_field;
  seen = seen;
  here = refl;
  fewer = omega arith;
}
fields-Returns n fuel f h ((key, v) ∷ fields) seen l = elim (Bool-cases (is_sensitive key)) [
  | inl s ↦
      let rest = fields-Returns n fuel f h fields seen l in
      record {
        value = field key (text "[REDACTED]") rest.value;
        seen = rest.seen;
        here = sanitize_fields-redacted f key v fields seen _ _ s rest.here;
        fewer = rest.fewer;
      }
  | inr s ↦
      let r = h v seen l in
      let rest = fields-Returns n fuel f h fields r.seen (omega (arith, r.fewer)) in
      record {
        value = field key r.value rest.value;
        seen = rest.seen;
        here = sanitize_fields-cons f key v fields seen _ _ _ _ s r.here rest.here;
        fewer = omega (arith, r.fewer, rest.fewer);
      }
]

-- An object that was not seen: its entries are read with one object less unseen.
object-Returns :
    (n fuel i : ℕ) (f : Sanitizer)
    → Total n fuel f
    → (o : Object) (seen : List ℕ) → (o ≡ opaque "") ⊎ (i < n)
    → contains_id i seen ≡ false
    → unseen n seen < suc fuel
    → Returns n (unseen n seen) (sanitize_object f i o seen)
unfolding sanitize_object
object-Returns n fuel i f h (error name message) seen b c l = record {
  value = _;
  seen = seen;
  here = refl;
  fewer = omega arith;
}
object-Returns n fuel i f h (array vs) seen b c l = elim b [
  | inl none_there ↦ absurd (array≢opaque vs none_there)
  | inr lt ↦
      let less = unseen-cons_new n i seen lt c in
      let r = items-Returns n fuel f h vs (i ∷ seen) (omega (arith, less)) in
      record {
        value = list r.value;
        seen = r.seen;
        here = rw r.here refl;
        fewer = omega (arith, less, r.fewer);
      }
]
object-Returns n fuel i f h (plain fields) seen b c l = elim b [
  | inl none_there ↦ absurd (plain≢opaque fields none_there)
  | inr lt ↦
      let less = unseen-cons_new n i seen lt c in
      let r = fields-Returns n fuel f h fields (i ∷ seen) (omega (arith, less)) in
      record {
        value = object r.value;
        seen = r.seen;
        here = rw r.here refl;
        fewer = omega (arith, less, r.fewer);
      }
]
object-Returns n fuel i f h (opaque name) seen b c l = record {
  value = _;
  seen = seen;
  here = refl;
  fewer = omega arith;
}

object_at-cases : (heap : Heap) (i : ℕ) → (object_at heap i ≡ opaque "") ⊎ (i < length heap)
object_at-cases [] i = inl refl
object_at-cases (o ∷ heap) zero = inr (omega arith)
object_at-cases (o ∷ heap) (suc i) = elim (object_at-cases heap i) [
  | inl e ↦ inl e
  | inr l ↦ inr (omega (arith, l))
]

value-Returns : (heap : Heap) (fuel : ℕ) → Total (length heap) fuel (sanitize_value heap fuel)
unfolding Total sanitize_value
value-Returns heap zero v seen l = absurd (omega (arith, l))
value-Returns heap (suc fuel) (scalar s) seen l = record {
  value = same (scalar s);
  seen = seen;
  here = refl;
  fewer = omega arith;
}
value-Returns heap (suc fuel) (ref i) seen l = elim (Bool-cases (contains_id i seen)) [
  | inl c ↦ record {
    value = text "[Circular]";
    seen = seen;
    here = sanitize_value-seen heap fuel i seen c;
    fewer = omega arith;
  }
  | inr c ↦
      let r =
        object-Returns (length heap) fuel i (sanitize_value heap fuel) (value-Returns heap fuel)
          (object_at heap i) seen (object_at-cases heap i) c l in
      record {
        value = r.value;
        seen = r.seen;
        here = sanitize_value-new heap fuel i seen c ∙ r.here;
        fewer = r.fewer;
      }
]

unseen-nil : (n : ℕ) → unseen n [] ≡ n
unfolding unseen
unseen-nil zero = refl
unseen-nil (suc n) = omega (arith, unseen-nil n)

-- With the fuel that `debug` takes, the redaction always ends.
pub sanitize_debug_args-Returns :
    (heap : Heap) (args : List Value)
    → (os : Items) × (sanitize_debug_args heap (suc (length heap)) args ≡ some os)
unfolding sanitize_debug_args
sanitize_debug_args-Returns heap args =
    let r =
      items-Returns (length heap) (suc (length heap)) (sanitize_value heap (suc (length heap)))
        (value-Returns heap (suc (length heap))) args []
        (omega (arith, unseen-nil (length heap))) in
    (r.value, ground (arith, r.here))
