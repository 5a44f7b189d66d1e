-- ===== src/Direct.antt =====
-- The peers of direct message channels: webapp/src/utils/dmPeer.js, webapp/src/utils/dmPickerPeers.js
-- and webapp/src/utils/dmChannel.js. The host's store is given: its direct channels and its users.
pub mod Laws
pub mod Picker
mod Tests
use Prim.Native.String.{◌++◌}
use Prim.Native.Char.{Char, code}
use mattermost_plugin_voices.Base.{
  ℕ, String, Bool, true, false, not, ◌&&◌, ◌||◌, Option, none, some, List, [], ◌∷◌, contains,
  is_set, eqb, if◌then◌else◌, ◌==◌,
}
use mattermost_plugin_voices.Users.{User}

-- A channel as far as the code reads it; a missing text is the empty one.
pub record Channel : Type 0 where
  pub id : String
  pub teammate_id : String
  pub is_direct : Bool
  pub name : String

abbrev pub cons_head : Char → List String → List String
cons_head c [] = String.◌∷◌ c "" ∷ []
cons_head c (s ∷ parts) = String.◌∷◌ c s ∷ parts

abbrev pub prepend : String → List String → List String
prepend s [] = s ∷ []
prepend s (t ∷ parts) = (s ++ t) ∷ parts

abbrev pub is_underscore : Char → Bool
is_underscore c = eqb (code c) 95

abbrev pub add_part : (held underscore : Bool) → Char → List String → List String
add_part true true c parts = "" ∷ parts
add_part false true c parts = parts
add_part true false c parts = prepend "_" (cons_head c parts)
add_part false false c parts = cons_head c parts

-- `s.split('__')`; `held` says that an underscore stands before `s` that no separator has taken.
unfoldable pub split_held : (held : Bool) → String → List String
split_held true String.[] = "_" ∷ []
split_held false String.[] = "" ∷ []
split_held held (String.◌∷◌ c s) =
    add_part held (is_underscore c) c (split_held (not held && is_underscore c) s)

abbrev pub peer_of_ids : (my_id : String) → List String → Option String
peer_of_ids my_id (a ∷ b ∷ []) =
    if a == b then none else if a == my_id then some b else if b == my_id then some a else none
peer_of_ids my_id _ = none

-- `getDirectMessagePeerUserId`, on a channel; `my_id` is empty if there is no current user.
unfoldable pub direct_peer : (my_id : String) → Channel → Option String
unfolding split_held
direct_peer my_id c =
    if is_set c.teammate_id
    then (if c.teammate_id == my_id then none else some c.teammate_id)
    else if not c.is_direct
    then none
    else if not (is_set my_id) || not (is_set c.name)
    then none
    else peer_of_ids my_id (split_held false c.name)

pub record Row : Type 0 where
  pub channel_id : String
  pub peer_id : String
  pub user : User

abbrev pub user_row : (channel_id peer_id : String) → Option User → Option Row
user_row channel_id peer_id none = none
user_row channel_id peer_id (some u) =
    if u.deleted
    then none
    else if u.is_bot
    then none
    else some (record { channel_id = channel_id; peer_id = peer_id; user = u })

-- the row of a channel, if the loop does not pass over it
unfoldable pub eligible :
    (my_id : String) (users : String → Option User) (seen : List String) → Channel → Option Row
unfolding direct_peer
eligible my_id users seen c = if not c.is_direct then none else elim (direct_peer my_id c) [
  | none ↦ none
  | some p ↦ if not (is_set p) || contains p seen then none else user_row c.id p (users p)
]

-- `getDirectMessagePeersForPicker`, from the channels that are left and the peers seen
unfoldable pub picker_rows :
    (my_id : String) (users : String → Option User) (seen : List String) → List Channel → List Row
unfolding eligible
picker_rows my_id users seen [] = []
picker_rows my_id users seen (c ∷ cs) = elim (eligible my_id users seen c) [
  | none ↦ picker_rows my_id users seen cs
  | some r ↦ r ∷ picker_rows my_id users (r.peer_id ∷ seen) cs
]

abbrev pub is_peer : Option String → String → Bool
is_peer none p = false
is_peer (some q) p = q == p

-- `getDirectChannelIdForPeer` behind its guard
unfoldable pub first_channel : (my_id peer_id : String) → List Channel → Option String
unfolding direct_peer
first_channel my_id peer_id [] = none
first_channel my_id peer_id (c ∷ cs) =
    let rest = first_channel my_id peer_id cs in
    if not c.is_direct
    then rest
    else if is_peer (direct_peer my_id c) peer_id
    then some c.id
    else rest

unfoldable pub direct_channel_id : (my_id peer_id : String) → List Channel → Option String
unfolding first_channel
direct_channel_id my_id peer_id channels =
    if not (is_set my_id) || not (is_set peer_id)
    then none
    else first_channel my_id peer_id channels

-- `getHintedPeerId`, on the channel that the store has for the hint
unfoldable pub hinted_peer_id : (my_id hint : String) → Option Channel → Option String
unfolding direct_peer
hinted_peer_id my_id hint none = none
hinted_peer_id my_id hint (some c) =
    if not (is_set hint) || not c.is_direct then none else direct_peer my_id c
