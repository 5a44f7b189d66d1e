-- ===== src/Voice/Ownership.antt =====
-- What a voice session owns in each of its states: webapp/src/utils/voiceSession.js.
use mattermost_plugin_voices.Base.{
  ℕ, String, Bool, false, Option, none, some, List, [], ◌∷◌, ◌≡◌, ◌∙◌, present, is_some, arith,
}
use mattermost_plugin_voices.Voice.Effect.{
  PeerMessage, send_handshake, received_handshake, audio_toggle, video_toggle,
}
use mattermost_plugin_voices.Media.{MediaStream}
use mattermost_plugin_voices.Voice.Session.{
  VoiceSession, SwarmClose, at_once, later, throws, new_session, is_active_state, is_closing, start,
  acquired, hub_created, close, finish,
}
use mattermost_plugin_voices.Voice.Peers.{
  HubPeer, Local, register_hub_peer, peer_timed_out, attach_peer, peer_stream, peer_data,
  detach_peer, set_microphone_enabled, set_speaker_enabled,
}
use mattermost_plugin_voices.Voice.Steps.{
  Event, starts, acquires, creates_hub, closes, finishes, registers, times_out, attaches, streams,
  sends, detaches, sets_microphone, sets_speaker, step, run,
}

pub record Owns (s : VoiceSession) : Type 0 where
  pub room : present s.room_id ≡ is_active_state s.state
  pub stream : is_active_state s.state ≡ false → s.stream ≡ none
  pub hub : is_active_state s.state ≡ false → s.hub ≡ none
  pub swarm : is_active_state s.state ≡ false → s.swarm ≡ none
  pub paired : is_some s.swarm ≡ is_some s.hub
  pub pending : is_some s.pending ≡ is_closing s.state
  pub callbacks : is_closing s.state ≡ false → s.cleanup_callbacks ≡ []

pub new_session-Owns : Owns new_session
new_session-Owns = ground arith

-- What an event about the peers leaves alone.
pub record Aside (s t : VoiceSession) : Type 0 where
  pub state : t.state ≡ s.state
  pub room : t.room_id ≡ s.room_id
  pub stream : t.stream ≡ s.stream
  pub hub : t.hub ≡ s.hub
  pub swarm : t.swarm ≡ s.swarm
  pub pending : t.pending ≡ s.pending
  pub callbacks : t.cleanup_callbacks ≡ s.cleanup_callbacks

pub Aside-Owns : (s t : VoiceSession) → Owns s → Aside s t → Owns t
Aside-Owns s t o a = record {
  room = rw (a.room, a.state) o.room;
  stream = λ q. a.stream ∙ o.stream (rw (← a.state) q);
  hub = λ q. a.hub ∙ o.hub (rw (← a.state) q);
  swarm = λ q. a.swarm ∙ o.swarm (rw (← a.state) q);
  paired = rw (a.swarm, a.hub) o.paired;
  pending = rw (a.pending, a.state) o.pending;
  callbacks = λ q. a.callbacks ∙ o.callbacks (rw (← a.state) q);
}

pub start-Owns : (r : String) (s : VoiceSession) → Owns s → Owns (start r s).0
unfolding start
start-Owns r s o = ground arith

pub acquired-Owns :
    (r : String) (m : Option MediaStream) (s : VoiceSession) → Owns s → Owns (acquired r m s).0
unfolding acquired
acquired-Owns r none s o = o
acquired-Owns r (some m) s o = ground arith

pub hub_created-Owns :
    (r : String) (h : Option ℕ) (c : Bool) (sw : Option ℕ) (s : VoiceSession)
    → Owns s
    → Owns (hub_created r h c sw s).0
unfolding hub_created
hub_created-Owns r none c sw s o = o
hub_created-Owns r (some h) c none s o = ground arith
hub_created-Owns r (some h) c (some sw) s o = ground arith

pub finish-Owns : (n : ℕ) (s : VoiceSession) → Owns s → Owns (finish n s)
unfolding finish
finish-Owns n s o = ground arith

pub close-Owns : (d : ℕ) (how : SwarmClose) (s : VoiceSession) → Owns s → Owns (close d how s)
unfolding close
close-Owns d at_once s o = ground arith
close-Owns d later s o = ground arith
close-Owns d throws s o = ground arith

pub register-Aside : (m : HubPeer) (s : VoiceSession) → Aside s (register_hub_peer m s).0
unfolding register_hub_peer
register-Aside m s = ground arith

pub timed_out-Aside : (t : ℕ) (from : String) (s : VoiceSession) → Aside s (peer_timed_out t from s)
unfolding peer_timed_out
timed_out-Aside t from s = ground arith

pub attach-Aside : (p : ℕ) (id u : String) (s : VoiceSession) → Aside s (attach_peer p id u s).0
unfolding attach_peer
attach-Aside p id u s = ground arith

pub stream-Aside :
    (n : ℕ) (id : String) (m : MediaStream) (on : Bool) (s : VoiceSession)
    → Aside s (peer_stream n id m on s)
unfolding peer_stream
stream-Aside n id m on s = ground arith

pub data-Aside :
    (p n : ℕ) (l : Local) (m : PeerMessage) (s : VoiceSession) → Aside s (peer_data p n l m s)
unfolding peer_data
data-Aside p n l received_handshake s = ground arith
data-Aside p n l (send_handshake u) s = ground arith
data-Aside p n l (audio_toggle b) s = ground arith
data-Aside p n l (video_toggle b) s = ground arith

pub detach-Aside : (id : String) (s : VoiceSession) → Aside s (detach_peer id s)
unfolding detach_peer
detach-Aside id s = ground arith

pub microphone-Aside : (b : Bool) (s : VoiceSession) → Aside s (set_microphone_enabled b s)
unfolding set_microphone_enabled
microphone-Aside b s = ground arith

pub speaker-Aside : (b : Bool) (s : VoiceSession) → Aside s (set_speaker_enabled b s)
unfolding set_speaker_enabled
speaker-Aside b s = ground arith

pub step-Owns : (e : Event) (s : VoiceSession) → Owns s → Owns (step e s)
unfolding step
step-Owns (starts r) s o = start-Owns r s o
step-Owns (acquires r m) s o = acquired-Owns r m s o
step-Owns (creates_hub r h c sw) s o = hub_created-Owns r h c sw s o
step-Owns (closes d how) s o = close-Owns d how s o
step-Owns (finishes n) s o = finish-Owns n s o
step-Owns (registers m) s o = Aside-Owns s _ o (register-Aside m s)
step-Owns (times_out t from) s o = Aside-Owns s _ o (timed_out-Aside t from s)
step-Owns (attaches p id u) s o = Aside-Owns s _ o (attach-Aside p id u s)
step-Owns (streams n id m on) s o = Aside-Owns s _ o (stream-Aside n id m on s)
step-Owns (sends p n l m) s o = Aside-Owns s _ o (data-Aside p n l m s)
step-Owns (detaches id) s o = Aside-Owns s _ o (detach-Aside id s)
step-Owns (sets_microphone b) s o = Aside-Owns s _ o (microphone-Aside b s)
step-Owns (sets_speaker b) s o = Aside-Owns s _ o (speaker-Aside b s)

run-Owns_from : (es : List Event) (s : VoiceSession) → Owns s → Owns (run es s)
unfolding run
run-Owns_from [] s o = o
run-Owns_from (e ∷ es) s o = run-Owns_from es _ (step-Owns e s o)

-- After any events at all, a session that is not active has no room, no stream, no hub and no swarm,
-- an active one has a room and no close under way, a session has a swarm exactly when it has a hub,
-- and a close is under way exactly in the state closing, the only one with callbacks waiting.
pub run-Owns : (es : List Event) → Owns (run es new_session)
run-Owns es = run-Owns_from es new_session new_session-Owns
