-- ===== src/Requests/Octets.antt =====
-- Texts of cookies, split, trimmed and compared: webapp/src/utils/mattermostApi.js and
-- webapp/src/utils/pluginSignalHub.js.
use Prim.Native.String.{◌++◌}
use Prim.Native.Nat.{Ordering}
use Prim.Native.String
use Prim.Native.String.{then as then_by}
use text.Mathlib.Text.{is_eq}
use Prim.Native.String.append
use Prim.Native.String.compare
use Prim.Native.Char.{Char, code}
use mattermost_plugin_voices.Base.{
  String, Bool, true, false, not, ◌&&◌, Option, none, some, List, [], ◌∷◌, ◌≡◌, refl, ap, eqb,
  arith, if◌then◌else◌, ◌==◌,
}
use mattermost_plugin_voices.Base.Text.{cons_trimmed, is_space, trim, trim_start, trim_end}
use mattermost_plugin_voices.Requests.{split_cookies, after_prefix}

-- no white space, no semicolon
abbrev pub is_octets : String → Bool
is_octets String.[] = true
is_octets (String.◌∷◌ c s) = not (is_space (code c)) && not (eqb (code c) 59) && is_octets s

-- no equals sign either
abbrev pub is_name : String → Bool
is_name String.[] = true
is_name (String.◌∷◌ c s) =
    not (is_space (code c)) && not (eqb (code c) 59) && not (eqb (code c) 61) && is_name s

abbrev pub is_cookie : String × String → Bool
is_cookie (name, value) = is_name name && is_octets value

abbrev pub print_cookie : String × String → String
print_cookie (name, value) = name ++ ("=" ++ value)

-- what a browser gives as `document.cookie`
abbrev pub print_cookies : List (String × String) → String
print_cookies [] = ""
print_cookies (c ∷ []) = print_cookie c
print_cookies (c ∷ d ∷ cookies) = print_cookie c ++ ("; " ++ print_cookies (d ∷ cookies))

pub split_octets : (s : String) → is_octets s ≡ true → split_cookies s ≡ s ∷ []
unfolding split_cookies
split_octets String.[] o = refl
split_octets (String.◌∷◌ c s) o = ground (arith, split_octets s)

pub split_joined :
    (s t : String)
    → is_octets s ≡ true
    → split_cookies (s ++ ("; " ++ t)) ≡ s ∷ split_cookies (" " ++ t)
unfolding split_cookies
split_joined String.[] t o = rw (append.nil, append.cons) refl
split_joined (String.◌∷◌ c s) t o = rw append.cons (ground (arith, split_joined s t))

trim_start_octets : (s : String) → is_octets s ≡ true → trim_start s ≡ s
unfolding trim_start
trim_start_octets String.[] o = refl
trim_start_octets (String.◌∷◌ c s) o = ground arith

octets_tail : (c : Char) (s : String) → is_octets (String.◌∷◌ c s) ≡ true → is_octets s ≡ true
octets_tail c s o = ground arith

trim_end_octets : (s : String) → is_octets s ≡ true → trim_end s ≡ s
unfolding trim_end
trim_end_octets String.[] o = refl
trim_end_octets (String.◌∷◌ c String.[]) o = ground arith
trim_end_octets (String.◌∷◌ c (String.◌∷◌ d s)) o =
    ap (cons_trimmed c) (trim_end_octets (String.◌∷◌ d s) (octets_tail c (String.◌∷◌ d s) o))

pub trim_octets : (s : String) → is_octets s ≡ true → trim s ≡ s
unfolding trim
trim_octets s o = rw (trim_start_octets s o) (trim_end_octets s o)

both_equal : (o q : Ordering) → is_eq (then_by o q) ≡ (is_eq o && is_eq q)
both_equal Ordering.lt q = refl
both_equal Ordering.eq q = refl
both_equal Ordering.gt q = refl

same_cons :
    (c d : Char) (s t : String)
    → (String.◌∷◌ c s == String.◌∷◌ d t) ≡ (eqb (code c) (code d) && s == t)
same_cons c d s t = rw (compare.cons-cons c d s t) (both_equal _ (Prim.Native.String.compare s t))

same_empty : (c : Char) (s : String) → (String.◌∷◌ c s == "") ≡ false
same_empty c s = rw (compare.cons-nil c s) refl

same_empty_left : (c : Char) (s : String) → ("" == String.◌∷◌ c s) ≡ false
same_empty_left c s = rw (compare.nil-cons c s) refl

after_equals : (v : String) → after_prefix "=" ("=" ++ v) ≡ some v
unfolding after_prefix
after_equals v = rw append.cons (ap some (append.nil v))

differs : (b x : Bool) (r : Option String) → b ≡ false → (if b then r else none) ≡ none
differs b x r e = ground arith

pub after_name :
    (p n v : String)
    → is_name p ≡ true
    → is_name n ≡ true
    → after_prefix (p ++ "=") (n ++ ("=" ++ v)) ≡ (if n == p then some v else none)
unfolding after_prefix
after_name String.[] String.[] v j i = simp append.nil (after_equals v)
after_name String.[] (String.◌∷◌ c n) v j i = rw (append.cons, same_empty c n) (ground arith)
after_name (String.◌∷◌ d p) String.[] v j i =
    simp (append.nil, append.cons, same_empty_left d p) (rw append.cons (ground arith))
after_name (String.◌∷◌ d p) (String.◌∷◌ c n) v j i =
    simp (append.cons, same_cons c d n p) (ground (arith, after_name p n v))

name_tail : (c : Char) (n : String) → is_name (String.◌∷◌ c n) ≡ true → is_name n ≡ true
name_tail c n i = ground arith

octets_cons :
    (c : Char) (n s : String)
    → is_name (String.◌∷◌ c n) ≡ true
    → is_octets s ≡ true
    → is_octets (String.◌∷◌ c s) ≡ true
octets_cons c n s i o = ground arith

pub octets-name :
    (n v : String) → is_name n ≡ true → is_octets v ≡ true → is_octets (n ++ ("=" ++ v)) ≡ true
unfolding is_space
octets-name String.[] v i o = rw append.nil (rw append.cons (rw append.nil o))
octets-name (String.◌∷◌ c n) v i o =
    rw append.cons (octets_cons c n (n ++ ("=" ++ v)) i (octets-name n v (name_tail c n i) o))
