-- ===== src/Requests/RoundTrip.antt =====
-- A token that stands among the cookies is the token that is sent: webapp/src/utils/mattermostApi.js
-- and webapp/src/utils/pluginSignalHub.js.
use Prim.Native.String.{◌++◌}
use Prim.Native.String.append
use Prim.Native.Char.{Char, code}
use mattermost_plugin_voices.Base.{
  String, Bool, true, Option, none, some, List, [], ◌∷◌, ◌≡◌, refl, sym, ◌∙◌, Bool-cases, inl, inr,
  ap, all, is_set, arith, eq_iff, if◌then◌else◌, ◌==◌,
}
use mattermost_plugin_voices.Base.Dict.{find}
use mattermost_plugin_voices.Base.Text.{is_space, trim, trim_start, trim_end}
use mattermost_plugin_voices.Direct.{cons_head}
use mattermost_plugin_voices.Requests.{
  plugin_cookie_auth_headers, mattermost_api_headers, or_next, split_cookies, after_prefix,
  first_token, csrf_token,
}
use mattermost_plugin_voices.Requests.Octets.{
  is_octets, is_name, is_cookie, print_cookie, print_cookies, split_octets, split_joined,
  trim_octets, after_name, octets-name,
}

token_name : is_name "MMCSRF" ≡ true
unfolding is_space
token_name = refl

chosen :
    (b : Bool) (v rest : String)
    → or_next (if b then some v else none) rest ≡ (if b then v else rest)
chosen b v rest = ground arith

-- what a part of the cookies gives
token_part :
    (n v : String) (parts : List String)
    → is_name n ≡ true
    → is_octets v ≡ true
    → first_token (print_cookie (n, v) ∷ parts) ≡ (if n == "MMCSRF" then v else first_token parts)
token_part n v parts i o =
    ap (λ t. or_next (after_prefix "MMCSRF=" t) (first_token parts))
      (trim_octets (n ++ ("=" ++ v)) (octets-name n v i o))
    ∙ ap (λ t. or_next t (first_token parts)) (after_name "MMCSRF" n v token_name i)
    ∙ chosen (n == "MMCSRF") v (first_token parts)

start_space :
    (c : Char) (s : String) → is_space (code c) ≡ true → trim_start (String.◌∷◌ c s) ≡ trim_start s
unfolding trim_start
start_space c s p = rw p refl

trim_space : (c : Char) (s : String) → is_space (code c) ≡ true → trim (String.◌∷◌ c s) ≡ trim s
unfolding trim
trim_space c s p = ap trim_end (start_space c s p)

token_empty : first_token ("" ∷ []) ≡ ""
unfolding after_prefix trim
token_empty = refl

token_space :
    (c : Char) (parts : List String)
    → is_space (code c) ≡ true
    → first_token (cons_head c parts) ≡ first_token parts
token_space c [] p =
    ap (λ t. or_next (after_prefix "MMCSRF=" t) "") (trim_space c "" p) ∙ token_empty
token_space c (s ∷ parts) p =
    ap (λ t. or_next (after_prefix "MMCSRF=" t) (first_token parts)) (trim_space c s p)

spaced_token : (x : String) → first_token (split_cookies (" " ++ x)) ≡ first_token (split_cookies x)
unfolding split_cookies is_space
spaced_token x = rw (append.cons, append.nil) (token_space _ (split_cookies x) refl)

abbrev pub or_empty : Option String → String
or_empty none = ""
or_empty (some s) = s

split_empty : split_cookies "" ≡ "" ∷ []
unfolding split_cookies
split_empty = refl

printed_octets : (n v : String) → is_cookie (n, v) ≡ true → is_octets (n ++ ("=" ++ v)) ≡ true
printed_octets n v h = octets-name n v (ground arith) (ground arith)

found_here :
    (n v : String) (rest : Option String)
    → (if n == "MMCSRF" then v else or_empty rest)
      ≡ or_empty (if n == "MMCSRF" then some v else rest)
found_here n v rest = ground arith

tokens-print :
    (cookies : List (String × String))
    → all is_cookie cookies ≡ true
    → first_token (split_cookies (print_cookies cookies)) ≡ or_empty (find "MMCSRF" cookies)
tokens-print [] h = ap first_token split_empty ∙ token_empty
tokens-print ((n, v) ∷ []) h =
    ap first_token (split_octets (n ++ ("=" ++ v)) (printed_octets n v (ground arith)))
    ∙ token_part n v [] (ground arith) (ground arith)
    ∙ found_here n v none
tokens-print ((n, v) ∷ d ∷ cookies) h =
    let rest = print_cookies (d ∷ cookies) in
    ap first_token (split_joined (n ++ ("=" ++ v)) rest (printed_octets n v (ground arith)))
    ∙ token_part n v (split_cookies (" " ++ rest)) (ground arith) (ground arith)
    ∙ ap (λ t. if n == "MMCSRF" then v else t)
        (spaced_token rest ∙ tokens-print (d ∷ cookies) (ground arith))
    ∙ found_here n v (find "MMCSRF" (d ∷ cookies))

token-first : (cookie : String) → csrf_token cookie ≡ first_token (split_cookies cookie)
unfolding csrf_token
token-first cookie = elim (Bool-cases (cookie == "")) [
  | inl t ↦ let e = (eq_iff cookie "").0 t in rw e (sym (ap first_token split_empty ∙ token_empty))
  | inr f ↦ rw f refl
]

-- a header that is left out when it would be empty
abbrev pub unless_empty : String → Option String
unless_empty s = if is_set s then some s else none

token-auth :
    (cookie : String)
    → find "X-CSRF-Token" (plugin_cookie_auth_headers cookie) ≡ unless_empty (csrf_token cookie)
unfolding plugin_cookie_auth_headers
token-auth cookie = ground arith

token-api :
    (cookie : String)
    → find "X-CSRF-Token" (mattermost_api_headers cookie) ≡ unless_empty (csrf_token cookie)
unfolding mattermost_api_headers
token-api cookie = ground arith

-- If the cookies of the page have names without white space, semicolon or equals sign, and values
-- without white space or semicolon, the token that is read from them is the value of the first one
-- that is named MMCSRF, and empty if there is none; it is the X-CSRF-Token of the headers for the
-- plugin and of those for Mattermost, which have none if the token is empty.
pub token-print :
    (cookies : List (String × String))
    → all is_cookie cookies ≡ true
    → let cookie = print_cookies cookies in
      let token = or_empty (find "MMCSRF" cookies) in
      (csrf_token cookie ≡ token)
      × (find "X-CSRF-Token" (plugin_cookie_auth_headers cookie) ≡ unless_empty token)
      × (find "X-CSRF-Token" (mattermost_api_headers cookie) ≡ unless_empty token)
token-print cookies h =
    let cookie = print_cookies cookies in
    let e = token-first cookie ∙ tokens-print cookies h in
    (e, token-auth cookie ∙ ap unless_empty e, token-api cookie ∙ ap unless_empty e)
