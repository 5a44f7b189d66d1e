-- ===== src/Ice/Tests.antt =====
-- A concrete configuration.
use mattermost_plugin_voices.Base.{
  Bool, true, false, not, ◌&&◌, ◌||◌, List, ◌≡◌, all, is_set, if◌then◌else◌,
}
use mattermost_plugin_voices.Base.Text.{trim}
use mattermost_plugin_voices.Ice.{IceServer, default_stun, build_ice_servers}
use mattermost_plugin_voices.Ice.Laws.{is_own, is_empty, build_ice_servers-offered}

abbrev servers : List IceServer
servers = build_ice_servers " stun:a " "turn:b" "ann" "secret"

abbrev set : Bool
set = is_set (trim " stun:a ") || is_set (trim "turn:b")

build_ice_servers-offered_example :
    ((set && is_empty servers) ≡ false)
    × ((not set
          || all (is_own (trim " stun:a ") (trim "turn:b") (trim "ann") (trim "secret")) servers)
        ≡ true)
    × ((if set then default_stun else servers) ≡ default_stun)
build_ice_servers-offered_example = build_ice_servers-offered " stun:a " "turn:b" "ann" "secret"
