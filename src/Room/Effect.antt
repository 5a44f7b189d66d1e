-- ===== src/Room/Effect.antt =====
-- What the panel of voice rooms does outside it: requests to the server, intervals and sounds. The
-- voice session keeps a log of its own.
use mattermost_plugin_voices.Base.{ℕ, String, Bool}

pub data Effect : Type 0 where
  fetch_rooms : Effect
  send_presence : (room_id : String) (microphone_on : Bool) → Effect
  request_deletion : (room_id : String) → Effect
  request_creation : (room_id name : String) → Effect
  set_interval clear_interval : ℕ → Effect
  play_join_sound play_leave_sound : Effect
  request_microphone : (room_id : String) → Effect
  request_hub : (room_id : String) → Effect
