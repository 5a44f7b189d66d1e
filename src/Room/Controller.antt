-- ===== src/Room/Controller.antt =====
-- webapp/src/utils/voiceRoomController.js: the intervals that poll the directory and repeat the
-- presence. What the server answers to a request is the panel's; an interval is named by a number.
use mattermost_plugin_voices.Base.{
  ℕ, suc, String, Bool, Option, none, some, List, [], ◌∷◌, ◌++◌, is_some, if◌then◌else◌,
}
use mattermost_plugin_voices.Room.Effect.{
  Effect, fetch_rooms, send_presence, set_interval, clear_interval,
}

-- the interval of the presence, with the room that its function captures
pub record Heartbeat : Type 0 where
  pub interval : ℕ
  pub room_id : String

pub record Controller : Type 0 where
  pub directory_poll : Option ℕ
  pub presence_heartbeat : Option Heartbeat
  pub next : ℕ

abbrev pub new_controller : Controller
new_controller = record { directory_poll = none; presence_heartbeat = none; next = 0 }

-- `startDirectory`, with the effects in their order
unfoldable pub start_directory : Controller → Controller × List Effect
start_directory c = if is_some c.directory_poll then (c, []) else (
  record c { directory_poll = some c.next; next = suc c.next },
  fetch_rooms ∷ set_interval c.next ∷ [],
)

unfoldable pub stop_directory : Controller → Controller × List Effect
stop_directory c = elim c.directory_poll [
  | none ↦ (c, [])
  | some n ↦ (record c { directory_poll = none }, clear_interval n ∷ [])
]

unfoldable pub stop_presence : Controller → Controller × List Effect
stop_presence c = elim c.presence_heartbeat [
  | none ↦ (c, [])
  | some h ↦ (record c { presence_heartbeat = none }, clear_interval h.interval ∷ [])
]

unfoldable pub start_presence :
    (room_id : String) (microphone_on : Bool) → Controller → Controller × List Effect
unfolding stop_presence
start_presence room_id microphone_on c =
    let (d, stopped) = stop_presence c in
    (
      record d {
        presence_heartbeat = some (record { interval = d.next; room_id = room_id });
        next = suc d.next;
      },
      stopped ++ (send_presence room_id microphone_on ∷ set_interval d.next ∷ []),
    )
