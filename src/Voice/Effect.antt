-- ===== src/Voice/Effect.antt =====
-- What the voice session does to the world outside it. Audio elements, peers, hubs, swarms, timers
-- and callbacks are named by numbers.
use mattermost_plugin_voices.Base.{ℕ, String, Bool, false, List, Option, none}
use mattermost_plugin_voices.Media.{Track, MediaStream}

-- a peer as the panel sees it, without its connection and its stream
pub record PeerView : Type 0 where
  pub user_id : String
  pub username : String
  pub display_name : String
  pub audio_on : Bool
  pub video_on : Bool
  pub connected : Bool

-- a peer with its connection and its stream
pub record PeerRecord : Type 0 where
  pub view : PeerView
  pub open view use *
  pub peer : Option ℕ
  pub stream : Option MediaStream

-- `{}`
abbrev pub new_record : PeerRecord
new_record = record {
  view = record {
    user_id = "";
    username = "";
    display_name = "";
    audio_on = false;
    video_on = false;
    connected = false;
  };
  peer = none;
  stream = none;
}

-- a message on the data channel of a peer
pub data PeerMessage : Type 0 where
  send_handshake : String → PeerMessage
  received_handshake : PeerMessage
  audio_toggle video_toggle : Bool → PeerMessage

pub data Effect : Type 0 where
  stop_track : Track → Effect
  enable_track : Track → Bool → Effect
  close_hub close_swarm : ℕ → Effect
  subscribe_hub open_swarm : ℕ → Effect
  announce : (hub : ℕ) → Effect
  set_timer clear_timer : ℕ → Effect
  emit_peers : List (String × PeerView) → Effect
  play_audio : (audio : ℕ) (muted : Bool) → Effect
  mute_audio : (audio : ℕ) (muted : Bool) → Effect
  pause_audio : ℕ → Effect
  run_callback : ℕ → Effect
  peer_send : (peer : ℕ) → PeerMessage → Effect
  add_stream : (peer : ℕ) → MediaStream → Effect
