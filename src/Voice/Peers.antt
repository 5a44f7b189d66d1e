-- ===== src/Voice/Peers.antt =====
-- The peers of webapp/src/utils/voiceSession.js: the table of peers, the handlers of a peer, and the
-- microphone and the speaker.
use mattermost_plugin_voices.Base.{
  ℕ, suc, String, Bool, true, false, not, ◌&&◌, Option, none, some, List, [], ◌∷◌, ◌++◌, map, keep,
  is_some, is_set, eqb, if◌then◌else◌,
}
use mattermost_plugin_voices.Base.Dict.{find, put, drop_key}
use mattermost_plugin_voices.Base.Js.{Value, bool, str, get, is_text, is_object}
use mattermost_plugin_voices.Media.{Track, MediaStream, first_audio}
use mattermost_plugin_voices.Voice.Effect.{
  Effect, PeerRecord, PeerView, PeerMessage, new_record, enable_track, emit_peers, set_timer,
  play_audio, mute_audio, pause_audio, peer_send, add_stream, send_handshake, received_handshake,
  audio_toggle, video_toggle,
}
use mattermost_plugin_voices.Voice.Session.{VoiceSession, emit}

abbrev pub views : (ℕ → PeerRecord) → List (String × ℕ) → List (String × PeerView)
views records [] = []
views records ((id, n) ∷ peers) = (id, (records n).view) ∷ views records peers

-- `emitPeers`
unfoldable pub emit_views : VoiceSession → VoiceSession
unfolding emit
emit_views s = emit (emit_peers (views s.records s.peers) ∷ []) s

abbrev pub update : {A : Type 0} → (ℕ → A) → ℕ → A → ℕ → A
update f n a m = if eqb m n then a else f m

-- the `connect` message of the hub, as `validHubConnectMessage` lets it through
pub record HubPeer : Type 0 where
  pub from : String
  pub from_user_id : String
  pub from_username : String
  pub from_display_name : String

-- `registerHubPeer`: the record and the timer of 20 s get the next two numbers.
unfoldable pub register_hub_peer : HubPeer → VoiceSession → VoiceSession × Bool
unfolding emit_views emit
register_hub_peer m s =
    if is_some (find m.from s.peers)
    then (s, false)
    else let r = record new_record {
      view = record {
        user_id = m.from_user_id;
        username = m.from_username;
        display_name = m.from_display_name;
        audio_on = true;
        video_on = false;
        connected = false;
      };
    } in
      let t = record s {
        peers = put m.from s.next s.peers;
        records = update s.records s.next r;
        peer_timers = s.peer_timers ++ (suc s.next ∷ []);
        next = suc (suc s.next);
      } in
      (emit (set_timer (suc s.next) ∷ []) (emit_views t), true)

-- The timer of `registerHubPeer` fires.
unfoldable pub peer_timed_out : (timer : ℕ) (from : String) → VoiceSession → VoiceSession
unfolding emit_views
peer_timed_out timer from s =
    let t = record s { peer_timers = keep (λ x. not (eqb x timer)) s.peer_timers } in
    elim (find from t.peers) [
      | none ↦ t
      | some n ↦
          if (t.records n).connected
          then t
          else emit_views (record t { peers = drop_key from t.peers })
    ]

-- `{...(this.peers[id] || {}), peer, audioOn: true, videoOn: false}`
abbrev pub attached : (peer : ℕ) → Option ℕ → (ℕ → PeerRecord) → PeerRecord
attached peer none records = record new_record {
  view = record new_record.view { audio_on = true };
  peer = some peer;
}
attached peer (some n) records = record {
  view = record (records n).view { audio_on = true; video_on = false };
  peer = some peer;
  stream = (records n).stream;
}

-- `attachPeer`; the result's second part is the number of the record that the handlers hold.
unfoldable pub attach_peer : (peer : ℕ) (id user_id : String) → VoiceSession → VoiceSession × ℕ
unfolding emit_views emit
attach_peer peer id user_id s =
    let t = record s {
      peers = put id s.next s.peers;
      records = update s.records s.next (attached peer (find id s.peers) s.records);
      next = suc s.next;
    } in
    (emit (peer_send peer (send_handshake user_id) ∷ []) (emit_views t), s.next)

-- The peer's `stream`: the audio element gets the next number.
unfoldable pub peer_stream :
    (n : ℕ) (id : String) → MediaStream → (speaker_on : Bool) → VoiceSession → VoiceSession
unfolding emit
peer_stream n id m speaker_on s = emit (play_audio s.next (not speaker_on) ∷ []) (record s {
  records = update s.records n (record (s.records n) { stream = some m });
  playbacks = put id s.next s.playbacks;
  next = suc s.next;
})

-- `typeof data.userId === 'string' && data.userId`
abbrev pub non_empty : Value → Option PeerMessage
non_empty (str s) = if is_set s then some (send_handshake s) else none
non_empty _ = none

-- `typeof data.enabled === 'boolean'`
abbrev pub toggle : (Bool → PeerMessage) → Value → Option PeerMessage
toggle kind (bool b) = some (kind b)
toggle kind _ = none

-- `parsePeerData` behind JSON.parse, which `parsed` is the answer of
unfoldable pub parse_peer_data : Option Value → Option PeerMessage
parse_peer_data none = none
parse_peer_data (some v) =
    if not (is_object v)
    then none
    else if is_text (get "type" v) "receivedHandshake"
    then some received_handshake
    else if is_text (get "type" v) "sendHandshake"
    then non_empty (get "userId" v)
    else if is_text (get "type" v) "audioToggle"
    then toggle audio_toggle (get "enabled" v)
    else if is_text (get "type" v) "videoToggle"
    then toggle video_toggle (get "enabled" v)
    else none

-- what `getLocalState` answers
pub record Local : Type 0 where
  pub audio_on : Bool
  pub audio_enabled : Bool
  pub video_on : Bool
  pub video_enabled : Bool

abbrev pub share : (peer : ℕ) → Option MediaStream → List Effect
share peer none = []
share peer (some m) = add_stream peer m ∷ []

abbrev pub unless : Bool → Effect → List Effect
unless true e = []
unless false e = e ∷ []

-- the peer's `data`
unfoldable pub peer_data : (peer n : ℕ) → Local → PeerMessage → VoiceSession → VoiceSession
unfolding emit emit_views
peer_data peer n local received_handshake s =
    emit
      (share peer s.stream
        ++ (unless (local.audio_on && local.audio_enabled) (peer_send peer (audio_toggle false))
            ++ unless (local.video_on && local.video_enabled)
                (peer_send peer (video_toggle false))))
      s
peer_data peer n local (send_handshake user_id) s =
    let r = s.records n in
    emit_views (
      emit (peer_send peer received_handshake ∷ []) (record s {
        records =
            update s.records n
              (record r { view = record r.view { user_id = user_id; connected = true } });
      }))
peer_data peer n local (audio_toggle enabled) s =
    let r = s.records n in
    emit_views (record s {
      records = update s.records n (record r { view = record r.view { audio_on = enabled } });
    })
peer_data peer n local (video_toggle enabled) s =
    let r = s.records n in
    emit_views (record s {
      records = update s.records n (record r { view = record r.view { video_on = enabled } });
    })

abbrev pub pause : Option ℕ → List Effect
pause none = []
pause (some audio) = pause_audio audio ∷ []

unfoldable pub detach_peer : String → VoiceSession → VoiceSession
unfolding emit emit_views
detach_peer id s = emit_views (
    emit (pause (find id s.playbacks))
      (record s { peers = drop_key id s.peers; playbacks = drop_key id s.playbacks }))

-- A toggle goes to each peer that is connected and has a connection.
abbrev pub toggle_to : Bool → PeerRecord → List Effect
toggle_to enabled r = elim r.peer [
  | none ↦ []
  | some peer ↦ if r.connected then peer_send peer (audio_toggle enabled) ∷ [] else []
]

abbrev pub toggles : Bool → (ℕ → PeerRecord) → List (String × ℕ) → List Effect
toggles enabled records [] = []
toggles enabled records ((id, n) ∷ peers) =
    toggle_to enabled (records n) ++ toggles enabled records peers

abbrev pub enable_first : Option Track → Bool → List Effect
enable_first none enabled = []
enable_first (some t) enabled = enable_track t enabled ∷ []

abbrev pub tracks_of : Option MediaStream → List Track
tracks_of none = []
tracks_of (some m) = m.tracks

unfoldable pub set_microphone_enabled : Bool → VoiceSession → VoiceSession
unfolding emit
set_microphone_enabled enabled s =
    emit
      (enable_first (first_audio (tracks_of s.stream)) enabled ++ toggles enabled s.records s.peers)
      s

unfoldable pub set_speaker_enabled : Bool → VoiceSession → VoiceSession
unfolding emit
set_speaker_enabled enabled s =
    emit (map (λ (p : String × ℕ). mute_audio p.1 (not enabled)) s.playbacks) s
