-- ===== src/Requests/Tests.antt =====
-- The cookies of a page: the theorem at them.
use mattermost_plugin_voices.Base.{String, true, List, [], ◌∷◌, ◌≡◌, refl}
use mattermost_plugin_voices.Base.Dict.{find}
use mattermost_plugin_voices.Base.Text.{is_space}
use mattermost_plugin_voices.Requests.{
  csrf_token, plugin_cookie_auth_headers, mattermost_api_headers,
}
use mattermost_plugin_voices.Base.Js.{end, field, no_item, undef, bool, str, obj}
use mattermost_plugin_voices.Requests.Server.{send_voice_presence, to_rooms}
use mattermost_plugin_voices.Requests.Octets.{print_cookies}
use mattermost_plugin_voices.Requests.RoundTrip.{or_empty, unless_empty, token-print}

abbrev cookies : List (String × String)
cookies = ("MMUSERID", "u1") ∷ ("MMCSRF", "t0=k") ∷ ("MMCSRF", "old") ∷ []

token_test : csrf_token (print_cookies cookies) ≡ "t0=k"
unfolding csrf_token
token_test = refl

token-print_example :
    let cookie = print_cookies cookies in
    let token = or_empty (find "MMCSRF" cookies) in
    (csrf_token cookie ≡ token)
    × (find "X-CSRF-Token" (plugin_cookie_auth_headers cookie) ≡ unless_empty token)
    × (find "X-CSRF-Token" (mattermost_api_headers cookie) ≡ unless_empty token)
unfolding is_space
token-print_example = token-print cookies refl

encoded_test :
    (send_voice_presence undef undef).body
    ≡ obj (field "roomId" (str "") (field "audioOn" (bool true) end))
unfolding send_voice_presence
encoded_test = refl

rooms_test : to_rooms (obj (field "data" (obj (field "rooms" (str "r1") end)) end)) ≡ no_item
unfolding to_rooms
rooms_test = refl
