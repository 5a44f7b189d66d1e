-- ===== src/Ice/Laws.antt =====
-- Which servers a peer connection is offered: webapp/src/utils/iceServers.js.
use mattermost_plugin_voices.Base.{
  String, Bool, true, false, not, ◌&&◌, ◌||◌, none, some, List, [], ◌∷◌, ◌≡◌, all, is_set, ◌==◌,
  eq_iff, arith, if◌then◌else◌, same,
}
use mattermost_plugin_voices.Base.Text.{trim}
use mattermost_plugin_voices.Ice.{IceServer, default_stun, configured, build_ice_servers}

-- A server of the configuration: the STUN server without a credential, or the TURN server with no
-- other credential than the configured one.
abbrev pub is_own : (stun turn user credential : String) → IceServer → Bool
is_own stun turn user credential s =
    (is_set stun && s.urls == stun && same s.username none && same s.credential none)
    || (is_set turn
        && s.urls == turn
        && ((same s.username none && same s.credential none)
            || (is_set user
                && is_set credential
                && same s.username (some user)
                && same s.credential (some credential))))

abbrev pub is_empty : List IceServer → Bool
is_empty [] = true
is_empty (s ∷ servers) = false

configured-own :
    (stun turn user credential : String)
    → (is_set stun || is_set turn) ≡ true
    → (is_empty (configured stun turn user credential) ≡ false)
      × (all (is_own stun turn user credential) (configured stun turn user credential) ≡ true)
unfolding configured
configured-own stun turn user credential h =
    ground
      (arith, eq_iff stun stun, eq_iff turn turn, eq_iff user user, eq_iff credential credential)

configured-default :
    (stun turn user credential : String)
    → (is_set stun || is_set turn) ≡ false
    → configured stun turn user credential ≡ default_stun
unfolding configured
configured-default stun turn user credential h = ground arith

-- If a server is configured, the list is not empty and has only configured servers, and a credential
-- goes only to the TURN server, with its user and when both are configured; with none configured it
-- is the default list.
pub build_ice_servers-offered :
    (stun turn user credential : String)
    → let servers = build_ice_servers stun turn user credential in
      let set = is_set (trim stun) || is_set (trim turn) in
      ((set && is_empty servers) ≡ false)
      × ((not set || all (is_own (trim stun) (trim turn) (trim user) (trim credential)) servers)
          ≡ true)
      × ((if set then default_stun else servers) ≡ default_stun)
unfolding build_ice_servers
build_ice_servers-offered stun turn user credential = ground (
  arith,
  configured-own (trim stun) (trim turn) (trim user) (trim credential),
  configured-default (trim stun) (trim turn) (trim user) (trim credential),
)
