-- ===== src/Ice.antt =====
-- The servers for the peer connections: webapp/src/utils/iceServers.js.
pub mod Laws
mod Tests
use mattermost_plugin_voices.Base.{
  String, Bool, true, false, not, ◌&&◌, Option, none, some, List, [], ◌∷◌, ◌++◌, is_set,
  if◌then◌else◌,
}
use mattermost_plugin_voices.Base.Text.{trim}

pub record IceServer : Type 0 where
  pub urls : String
  pub username : Option String
  pub credential : Option String

abbrev pub plain_server : String → IceServer
plain_server urls = record { urls = urls; username = none; credential = none }

abbrev pub default_stun : List IceServer
default_stun =
    plain_server "stun:stun.l.google.com:19302"
    ∷ plain_server "stun:stun1.l.google.com:19302"
    ∷ plain_server "stun:stun2.l.google.com:19302"
    ∷ []

-- the TURN server, of trimmed texts: its user and its credential are given together or not at all
unfoldable pub turn_server : (turn user credential : String) → List IceServer
turn_server turn user credential =
    if is_set turn && is_set user && is_set credential
    then record { urls = turn; username = some user; credential = some credential } ∷ []
    else if is_set turn
    then plain_server turn ∷ []
    else []

-- `out.length > 0 ? out : DEFAULT_STUN.slice()`
abbrev pub or_default : List IceServer → List IceServer
or_default [] = default_stun
or_default (s ∷ servers) = s ∷ servers

-- what the configuration's trimmed texts give
unfoldable pub configured : (stun turn user credential : String) → List IceServer
unfolding turn_server
configured stun turn user credential =
    if not (is_set stun) && not (is_set turn)
    then default_stun
    else or_default
        ((if is_set stun then plain_server stun ∷ [] else []) ++ turn_server turn user credential)

-- `buildIceServers`; a missing setting is the empty text.
unfoldable pub build_ice_servers : (stun turn user credential : String) → List IceServer
unfolding configured
build_ice_servers stun turn user credential =
    configured (trim stun) (trim turn) (trim user) (trim credential)
