-- ===== src/Room/Places/Handlers.antt =====
-- Deleting and creating a room, another tab, and the connection, of
-- webapp/src/components/modals/audio_group_call/audio_group_call.jsx, by the
-- places of Room/Places.antt.
use mattermost_plugin_voices.Base.{
  String, Bool, true, false, not, ◌&&◌, none, some, List, [], ◌∷◌, ◌≡◌, refl, sym, ap, ◌∙◌, is_set,
  arith, if◌then◌else◌, ◌==◌,
}
use mattermost_plugin_voices.Base.Js.{Value}
use mattermost_plugin_voices.Voice.Peers.{register_hub_peer}
use mattermost_plugin_voices.Voice.Ownership.{Aside}
use mattermost_plugin_voices.Voice.Session.{VoiceSession, SwarmClose}
use mattermost_plugin_voices.Room.Panel.{Panel, Room, delete_room, is_in, emit}
use mattermost_plugin_voices.Room.Joining.{
  PresenceChange, handle_join_room, handle_delete_room, handle_presence_sound,
  handle_exclusive_presence_change, presence_changed,
}
use mattermost_plugin_voices.Room.Connecting.{
  room_created, apply_rooms, rooms_answered, reconcile_voice_connection, handle_hub_data,
}
use mattermost_plugin_voices.Room.Agrees.{Agrees}
use mattermost_plugin_voices.Room.Agreement.Frames.{
  Stays, same-Agrees, sound-Stays, rooms-Stays, Stays-refl, perms-Stays, connect-Stays,
}
use mattermost_plugin_voices.Room.Steps.{presence_changes}
use mattermost_plugin_voices.Room.Places.{Place, is_shown, place, Joins, Leaves, Allowed}
use mattermost_plugin_voices.Room.Effect.{Effect, request_deletion, fetch_rooms}
use mattermost_plugin_voices.Room.Places.Changes.{
  is_in-shown, join-Joins, room-Leaves, disconnect-Leaves,
}
use mattermost_plugin_voices.Room.Places.Refines.{Stays-place}

emit-Stays : (es : List Effect) (p : Panel) → Stays p (emit es p)
unfolding emit
emit-Stays es p = ground arith

-- an event that does one thing or another, by a test
either : (b : Bool) (X Y : Type 0) → (b ≡ true → X) → (b ≡ false → Y) → if b then X else Y
either true X Y f g = f refl
either false X Y f g = g refl

pub delete-Allowed :
    (r : String) (how : SwarmClose) (p : Panel)
    → Agrees p
    → p.is_unmounted ≡ false
    → (if is_shown (place p) r
        then Leaves (place p) (place (handle_delete_room r how p))
        else place (handle_delete_room r how p) ≡ place p)
unfolding handle_delete_room
delete-Allowed r how p a u = rw (sym (is_in-shown r p a u)) (
    either (is_in p.active_room r) _ _ (λ t. rw t (room-Leaves (delete_room r) how p a u refl))
      (λ f. rw f (Stays-place p _ (emit-Stays (request_deletion r ∷ []) p))))

-- A relation of places at other names of the same places.
pub moved : (P : Place → Place → Type 0) (a c b d : Place) → c ≡ a → d ≡ b → P a b → P c d
moved P a c b d e f h = rw (e, f) h

created :
    (r name : String) (rooms : List Room) (how : SwarmClose) (p : Panel)
    → p.is_unmounted ≡ false
    → room_created r name (some rooms) how p ≡ handle_join_room r name how (apply_rooms rooms p)
unfolding room_created
created r name rooms how p u = ground arith

pub create-Allowed :
    (r name : String) (rooms : List Room) (how : SwarmClose) (p : Panel)
    → Agrees p
    → p.is_unmounted ≡ false
    → is_set r ≡ true
    → Joins r (place p) (place (room_created r name (some rooms) how p))
unfolding rooms_answered
create-Allowed r name rooms how p a u s =
    let q = apply_rooms rooms p in
    let e = rooms-Stays "" (some rooms) p in
    moved (Joins r) (place q) (place p) _ _ (sym (Stays-place p q e.1))
      (ap place (created r name rooms how p u))
      (join-Joins r name how q (same-Agrees p q a e) (e.1.unmounted ∙ u) s)

pub refused-place :
    (r name : String) (how : SwarmClose) (p : Panel)
    → place (room_created r name none how p) ≡ place p
unfolding room_created rooms_answered
refused-place r name how p =
    Stays-place p _ (rooms-Stays "Could not create that voice channel." none p).1

pub choice-place :
    (b : Bool) (p q : Panel) → place q ≡ place p → place (if b then p else q) ≡ place p
choice-place true p q e = refl
choice-place false p q e = e

-- The panel leaves for another tab by a test.
exclusive :
    (user_id : String) (c : PresenceChange) (how : SwarmClose) (p : Panel)
    → Agrees p
    → p.is_unmounted ≡ false
    → (if c.user_id == user_id
          && is_shown (place p) c.previous_room_id
          && not (is_shown (place p) c.room_id)
        then Leaves (place p) (place (handle_exclusive_presence_change user_id c how p))
        else place (handle_exclusive_presence_change user_id c how p) ≡ place p)
unfolding handle_exclusive_presence_change
exclusive user_id c how p a u =
    rw (sym (is_in-shown c.previous_room_id p a u), sym (is_in-shown c.room_id p a u))
      (either
        (c.user_id == user_id
          && is_in p.active_room c.previous_room_id
          && not (is_in p.active_room c.room_id))
        _ _ (λ t. rw t (disconnect-Leaves how p a u)) (λ f. rw f refl))

pub presence-Allowed :
    (user_id : String) (c : PresenceChange) (how : SwarmClose) (p : Panel)
    → Agrees p
    → p.is_unmounted ≡ false
    → Allowed user_id (presence_changes c how) (place p) (place (presence_changed user_id c how p))
unfolding presence_changed
presence-Allowed user_id c how p a u =
    let q = handle_presence_sound c p in
    let e = sound-Stays c p in
    moved (Allowed user_id (presence_changes c how)) (place q) (place p) _ _
      (sym (Stays-place p q e.1))
      (Stays-place (handle_exclusive_presence_change user_id c how q) _
        (emit-Stays (fetch_rooms ∷ []) (handle_exclusive_presence_change user_id c how q)))
      (exclusive user_id c how q (same-Agrees p q a e) (e.1.unmounted ∙ u))

pub reconcile-Stays :
    (ready : Bool) (p : Panel)
    → Agrees p
    → p.is_unmounted ≡ false
    → Stays p (reconcile_voice_connection ready p)
unfolding reconcile_voice_connection
reconcile-Stays ready p a u =
    ground (arith, Stays-refl p, perms-Stays p, connect-Stays ready p (a.hidden u))

pub hub_data-place :
    (own_id : String) (m : Value) (p : Panel) → place (handle_hub_data own_id m p) ≡ place p
unfolding handle_hub_data place register_hub_peer
hub_data-place own_id m p = ground arith

-- The session of a panel changes as an event about peers changes it.
pub Aside-place :
    (s : VoiceSession) (p : Panel) → Aside p.session s → place (record p { session = s }) ≡ place p
unfolding place
Aside-place s p x = ground arith
