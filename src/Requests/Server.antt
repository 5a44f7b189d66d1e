-- ===== src/Requests/Server.antt =====
-- The requests that the voice rooms and their invitations make, and what is read from the answers:
-- webapp/src/utils/voiceRoomsApi.js, voiceInvitesApi.js and mattermostApi.js. `encodeURIComponent` is
-- `encode`.
use Prim.Native.String.{◌++◌ as append}
use mattermost_plugin_voices.Base.{String, true, false, Option, List, [], ◌≡◌, all, if◌then◌else◌}
use mattermost_plugin_voices.Base.Js.{
  end, field, Items, no_item, Value, undef, bool, str, obj, arr, get, truthy,
}
use mattermost_plugin_voices.Base.Dict.{find}
use mattermost_plugin_voices.Base.Text.{trim}
use mattermost_plugin_voices.Requests.{request_headers}
use mattermost_plugin_voices.Requests.Octets.{print_cookies, is_cookie}
use mattermost_plugin_voices.Requests.RoundTrip.{or_empty, unless_empty, token-print}

pub data Method : Type 0 where
  get_method post_method delete_method : Method

-- The configuration that a caller gives; a GET or a DELETE has no data.
pub record Config : Type 0 where
  pub method : Method
  pub url : String
  pub body : Value

-- What axios gets, which always has `withCredentials`.
pub record Sent : Type 0 where
  pub config : Config
  pub headers : List (String × String)

-- `mattermostApiRequest`: the callers give no headers of their own.
unfoldable pub mattermost_api_request : (cookie : String) → Config → Sent
unfolding request_headers
mattermost_api_request cookie c = record { config = c; headers = request_headers [] cookie }

abbrev pub plugin_id : String
plugin_id = "mattermost-webrtc-video"

-- the addresses of the plugin's endpoints
abbrev pub voice_url : (path : String) → String
voice_url path = append "/plugins/" (append plugin_id (append "/v1/voice/" path))

abbrev pub rooms_url : String
rooms_url = voice_url "rooms"

-- the array, or an empty one
abbrev pub items_of : Value → Items
items_of (arr xs) = xs
items_of _ = no_item

unfoldable pub to_rooms : (response : Value) → Items
to_rooms response = items_of (get "rooms" (get "data" response))

unfoldable pub fetch_voice_rooms : Config
fetch_voice_rooms = record { method = get_method; url = rooms_url; body = undef }

unfoldable pub create_voice_room : (room_id name : Value) → Config
create_voice_room room_id name = record {
  method = post_method;
  url = rooms_url;
  body = obj (field "roomId" room_id (field "name" name end));
}

-- `audioOn = true`
abbrev pub or_true : Value → Value
or_true undef = bool true
or_true v = v

unfoldable pub send_voice_presence : (room_id audio_on : Value) → Config
send_voice_presence room_id audio_on = record {
  method = post_method;
  url = voice_url "presence";
  body = obj (
      field "roomId" (if truthy room_id then room_id else str "")
        (field "audioOn" (bool (truthy (or_true audio_on))) end));
}

unfoldable pub delete_voice_room : (encode : String → String) (room_id : String) → Config
delete_voice_room encode room_id = record {
  method = delete_method;
  url = append rooms_url (append "?roomId=" (encode room_id));
  body = undef;
}

-- `searchVoiceInviteUsers`, whose term is a text or missing
unfoldable pub search_voice_invite_users : (term : Option String) → Config
unfolding trim
search_voice_invite_users term = record {
  method = post_method;
  url = "/api/v4/users/search";
  body = obj (field "term" (str (trim (or_empty term))) (field "allow_inactive" (bool false) end));
}

unfoldable pub found_users : (response : Value) → Items
found_users response = items_of (get "data" response)

unfoldable pub send_voice_room_invite : (room_id target_user_id : Value) → Config
send_voice_room_invite room_id target_user_id = record {
  method = post_method;
  url = voice_url "invite";
  body = obj (field "roomId" room_id (field "targetUserId" target_user_id end));
}

unfoldable pub respond_voice_room_invite : (post_id invite_id decision : Value) → Config
respond_voice_room_invite post_id invite_id decision = record {
  method = post_method;
  url = voice_url "invite/response";
  body = obj (field "postId" post_id (field "inviteId" invite_id (field "decision" decision end)));
}

-- Every request of these carries the token that the cookies of the page hold.
pub request-token :
    (cookies : List (String × String)) (c : Config)
    → all is_cookie cookies ≡ true
    → find "X-CSRF-Token" (mattermost_api_request (print_cookies cookies) c).headers
      ≡ unless_empty (or_empty (find "MMCSRF" cookies))
unfolding mattermost_api_request
request-token cookies c h = (token-print cookies h).2
