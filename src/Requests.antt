-- ===== src/Requests.antt =====
-- The headers of requests to the server, with the token of the session's cookie:
-- webapp/src/utils/mattermostApi.js and webapp/src/utils/pluginSignalHub.js. `cookie` is
-- `document.cookie`.
pub mod Octets
pub mod RoundTrip
pub mod Server
mod Tests
use Prim.Native.Char.{Char, code}
use mattermost_plugin_voices.Base.{
  String, Bool, true, false, Option, none, some, List, [], ◌∷◌, eqb, is_set, if◌then◌else◌,
}
use mattermost_plugin_voices.Base.Dict.{put}
use mattermost_plugin_voices.Base.Text.{trim}
use mattermost_plugin_voices.Direct.{cons_head}

-- `cookie.split(';')`
unfoldable pub split_cookies : (cookie : String) → List String
split_cookies String.[] = "" ∷ []
split_cookies (String.◌∷◌ c s) =
    let parts = split_cookies s in if eqb (code c) 59 then "" ∷ parts else cons_head c parts

-- `p.startsWith(prefix)`, with `p.slice(prefix.length)`
unfoldable pub after_prefix : (prefix p : String) → Option String
after_prefix String.[] p = some p
after_prefix (String.◌∷◌ c prefix) String.[] = none
after_prefix (String.◌∷◌ c prefix) (String.◌∷◌ d p) =
    let rest = after_prefix prefix p in if eqb (code c) (code d) then rest else none

-- the token of a part, or that of the parts after it
abbrev pub or_next : Option String → (rest : String) → String
or_next none rest = rest
or_next (some token) rest = token

-- the loop of `getCsrfTokenFromCookie`
abbrev pub first_token : (parts : List String) → String
first_token [] = ""
first_token (p ∷ parts) = or_next (after_prefix "MMCSRF=" (trim p)) (first_token parts)

-- `getCsrfTokenFromCookie`
unfoldable pub csrf_token : (cookie : String) → String
unfolding split_cookies after_prefix trim
csrf_token cookie = if is_set cookie then first_token (split_cookies cookie) else ""

abbrev pub with_token : (token : String) → List (String × String) → List (String × String)
with_token token headers = if is_set token then put "X-CSRF-Token" token headers else headers

-- `pluginCookieAuthHeaders`
unfoldable pub plugin_cookie_auth_headers : (cookie : String) → List (String × String)
unfolding csrf_token
plugin_cookie_auth_headers cookie =
    with_token (csrf_token cookie) (("X-Requested-With", "XMLHttpRequest") ∷ [])

unfoldable pub mattermost_api_headers : (cookie : String) → List (String × String)
unfolding csrf_token
mattermost_api_headers cookie =
    with_token (csrf_token cookie)
      (("X-Requested-With", "XMLHttpRequest") ∷ ("Content-Type", "application/json") ∷ [])

-- `{...headers, ...own}`
abbrev pub merge_headers : (own headers : List (String × String)) → List (String × String)
merge_headers [] headers = headers
merge_headers ((k, v) ∷ own) headers = merge_headers own (put k v headers)

-- the headers of `mattermostApiRequest`, with those of its configuration
unfoldable pub request_headers :
    (own : List (String × String)) (cookie : String) → List (String × String)
unfolding mattermost_api_headers
request_headers own cookie = merge_headers own (mattermost_api_headers cookie)
