-- ===== src/Direct/Tests.antt =====
-- Concrete channels: the user "u1" with the peers "u2", twice, and "u3", a bot.
use mattermost_plugin_voices.Base.{
  String, Bool, true, false, Option, some, List, [], ◌∷◌, ◌≡◌, refl, contains, eq_iff, ◌==◌, arith,
  if◌then◌else◌,
}
use mattermost_plugin_voices.Users.{User}
use mattermost_plugin_voices.Direct.{Channel, direct_peer, picker_rows}
use mattermost_plugin_voices.Direct.Laws.{direct_peer-joined, peers}
use mattermost_plugin_voices.Direct.Picker.{picker_rows_complete}

abbrev user : String → Bool → User
user id is_bot = record {
  id = id;
  username = id;
  first_name = "";
  last_name = "";
  is_bot = is_bot;
  deleted = false;
}

abbrev users : String → Option User
users id = if id == "u3" then some (user "u3" true) else some (user id false)

abbrev channel : String → String → Channel
channel id name = record { id = id; teammate_id = ""; is_direct = true; name = name }

abbrev channels : List Channel
channels = channel "d1" "u1__u2" ∷ channel "d2" "u1__u3" ∷ channel "d3" "u2__u1" ∷ []

abbrev bob : String
bob = "u2"

direct_peer-joined_example :
    (direct_peer "u1" (channel "d1" "u1__u2") ≡ some "u2")
    × (direct_peer "u1" (channel "d3" "u2__u1") ≡ some "u2")
direct_peer-joined_example =
    direct_peer-joined "u1" "u2" (channel "d1" "u1__u2") (channel "d3" "u2__u1") refl refl refl
      (λ e. ground (arith, eq_iff "u2" "u1")) refl refl refl refl refl refl

picker_test : peers (picker_rows "u1" users [] channels) ≡ "u2" ∷ []
unfolding picker_rows
picker_test = refl

picker_rows_complete_example : contains "u2" (peers (picker_rows "u1" users [] channels)) ≡ true
unfolding direct_peer
picker_rows_complete_example =
    picker_rows_complete "u1" "u2" users (channel "d1" "u1__u2" ∷ channel "d2" "u1__u3" ∷ []) []
      (channel "d3" "u2__u1") (user "u2" false) refl refl refl refl refl refl
