-- ===== src/Call/Effect.antt =====
-- What the call code does to the world outside it, in the order of the calls. The log of a world
-- keeps the newest entry first.
use mattermost_plugin_voices.Base.{ℕ, String, Bool}
use mattermost_plugin_voices.Base.Js.{Value}
use mattermost_plugin_voices.Media.{Track, MediaStream}

pub data Effect : Type 0 where
  -- tones of utils/callRing.js and the notification of utils/callBrowserNotify.js
  start_incoming_ring stop_incoming_ring start_outgoing_ringback stop_outgoing_ringback : Effect
  notify_incoming : String → Effect
  -- signalling: a hub is named by the number that it got when it was made
  subscribe : ℕ → Effect
  broadcast : ℕ → Value → Effect
  send_invite : ℕ → String → Bool → Effect
  close_hub : ℕ → Effect
  open_swarm : (swarm hub : ℕ) → Effect
  close_swarm : ℕ → Effect
  cancel_watch : ℕ → Effect
  destroy_decline_stream destroy_cancel_stream : Effect
  -- posts in the direct message channel
  invite_post : (channel callee call_id : String) → Effect
  declined_notice : (channel caller : String) → Effect
  open_inbox : Effect
  -- media and the data channel to the peer
  stop_track : Track → Effect
  enable_track : Track → Bool → Effect
  add_stream : (peer : ℕ) → MediaStream → Effect
  add_track : (peer : ℕ) → Track → Effect
  request_media : (video audio : Bool) → Effect
  peer_send : (peer : ℕ) → Value → Effect
