-- ===== src/Room/Agreement/Frames.antt =====
-- The events that neither enter nor leave a room, against Room/Agrees.antt.
use mattermost_plugin_voices.Base.{
  ℕ, String, Bool, true, false, Option, none, some, List, ◌≡◌, refl, ◌∙◌, is_some, arith,
  Option-cases, inl, inr, if◌then◌else◌,
}
use mattermost_plugin_voices.Base.Js.{Value}
use mattermost_plugin_voices.Media.{MediaStream}
use mattermost_plugin_voices.Voice.Session.{VoiceSession, is_idle, acquired}
use mattermost_plugin_voices.Voice.Ownership.{
  Owns, Aside, Aside-Owns, acquired-Owns, hub_created-Owns, register-Aside,
}
use mattermost_plugin_voices.Room.Panel.{Panel, Room, is_in}
use mattermost_plugin_voices.Room.Joining.{PresenceChange, handle_presence_sound}
use mattermost_plugin_voices.Room.Connecting.{
  handle_request_perms, media_answered, connect_to_swarm, hub_answered, reconcile_voice_connection,
  handle_hub_data, hub_connect_message, handle_audio_toggle, handle_speaker_toggle, rooms_answered,
  bootstrap_directory, heartbeat_fires,
}
use mattermost_plugin_voices.Room.Agrees.{Agrees}

-- What an event that neither enters nor leaves a room leaves as it was.
pub record Stays (p q : Panel) : Type 0 where
  pub state : q.session.state ≡ p.session.state
  pub room : q.session.room_id ≡ p.session.room_id
  pub callbacks : q.session.cleanup_callbacks ≡ p.session.cleanup_callbacks
  pub active_room : q.active_room ≡ p.active_room
  pub heartbeat : q.controller.presence_heartbeat ≡ p.controller.presence_heartbeat
  pub transition : q.room_transition_id ≡ p.room_transition_id
  pub unmounted : q.is_unmounted ≡ p.is_unmounted
  pub tasks : q.tasks ≡ p.tasks
  pub next_task : q.next_task ≡ p.next_task
  pub picker : q.picker ≡ p.picker

pub Stays-Agrees : (p q : Panel) → Agrees p → Owns q.session → Stays p q → Agrees q
Stays-Agrees p q a o s = record {
  owns = o;
  older = rw (s.next_task, s.transition, s.tasks, s.callbacks) a.older;
  shown = λ u i. s.room ∙ a.shown (rw (← s.unmounted) u) (rw (← s.state) i) ∙ rw s.active_room refl;
  hidden = λ u i. rw s.active_room (a.hidden (rw (← s.unmounted) u) (rw (← s.state) i));
  moving = λ u i.
      rw (s.active_room, s.transition, s.tasks, s.callbacks)
        (a.moving (rw (← s.unmounted) u) (rw (← s.state) i));
  beats = λ h. s.room ∙ a.beats (rw (← s.heartbeat) h) ∙ rw s.heartbeat refl;
  gone = λ u. rw (s.heartbeat, s.state) (a.gone (rw (← s.unmounted) u));
}

-- The session of a panel changes as an event about peers changes it.
pub peers-Agrees :
    (s : VoiceSession) (p : Panel)
    → Agrees p
    → Aside p.session s
    → Agrees (record p { session = s })
peers-Agrees s p a x =
    Stays-Agrees p (record p { session = s }) a (Aside-Owns p.session s a.owns x)
      (record {
        state = x.state;
        room = x.room;
        callbacks = x.callbacks;
        active_room = refl;
        heartbeat = refl;
        transition = refl;
        unmounted = refl;
        tasks = refl;
        next_task = refl;
        picker = refl;
      })

pub mounts-Stays :
    (p : Panel) → (bootstrap_directory p).session ≡ p.session × Stays p (bootstrap_directory p)
unfolding bootstrap_directory
mounts-Stays p = ground arith

pub media-Stays : (r : String) (m : Option MediaStream) (p : Panel) → Stays p (media_answered r m p)
unfolding media_answered
media-Stays r none p = ground arith
media-Stays r (some m) p = ground arith

media-Owns :
    (r : String) (m : Option MediaStream) (p : Panel)
    → (media_answered r m p).session ≡ (acquired r m p.session).0
unfolding media_answered
media-Owns r m p = ground arith

pub hub-Stays : (r : String) (h sw : Option ℕ) (p : Panel) → Stays p (hub_answered r h sw p)
unfolding hub_answered
hub-Stays r none sw p = ground arith
hub-Stays r (some h) none p = ground arith
hub-Stays r (some h) (some sw) p = ground arith

pub audio-Stays :
    (p : Panel) → Stays p (handle_audio_toggle p) × Aside p.session (handle_audio_toggle p).session
unfolding handle_audio_toggle
audio-Stays p = ground arith

pub speaker-Stays :
    (p : Panel)
    → Stays p (handle_speaker_toggle p) × Aside p.session (handle_speaker_toggle p).session
unfolding handle_speaker_toggle
speaker-Stays p = ground arith

pub rooms-Stays :
    (e : String) (rooms : Option (List Room)) (p : Panel)
    → (rooms_answered e rooms p).session ≡ p.session × Stays p (rooms_answered e rooms p)
unfolding rooms_answered
rooms-Stays e none p = ground arith
rooms-Stays e (some rooms) p = ground arith

pub beats-Stays :
    (p : Panel) → (heartbeat_fires p).session ≡ p.session × Stays p (heartbeat_fires p)
unfolding heartbeat_fires
beats-Stays p = ground arith

pub sound-Stays :
    (c : PresenceChange) (p : Panel)
    → (handle_presence_sound c p).session ≡ p.session × Stays p (handle_presence_sound c p)
unfolding handle_presence_sound
sound-Stays c p = ground arith

pub Stays-refl : (p : Panel) → Stays p p
Stays-refl p = ground arith

pub perms-Stays :
    (p : Panel) → (handle_request_perms p).session ≡ p.session × Stays p (handle_request_perms p)
unfolding handle_request_perms
perms-Stays p = ground arith

pub connect-Stays :
    (ready : Bool) (p : Panel)
    → (is_idle p.session.state ≡ true → is_some p.active_room ≡ false)
    → (connect_to_swarm ready p).session ≡ p.session × Stays p (connect_to_swarm ready p)
unfolding connect_to_swarm
connect-Stays ready p h = ground arith

-- An event whose session is the one before.
pub same-Agrees : (p q : Panel) → Agrees p → (q.session ≡ p.session) × Stays p q → Agrees q
same-Agrees p q a s = Stays-Agrees p q a (rw s.0 a.owns) s.1

reconcile-Agrees :
    (ready : Bool) (p : Panel)
    → p.is_unmounted ≡ false
    → Agrees p
    → Agrees (reconcile_voice_connection ready p)
unfolding reconcile_voice_connection
reconcile-Agrees ready p u a =
    let asked = same-Agrees p (handle_request_perms p) a (perms-Stays p) in
    let connected =
      same-Agrees p (connect_to_swarm ready p) a (connect-Stays ready p (a.hidden u)) in
    ground arith

pub choice-Agrees :
    (b : Bool) (p q : Panel) → Agrees p → (b ≡ false → Agrees q) → Agrees (if b then p else q)
choice-Agrees true p q a f = a
choice-Agrees false p q a f = f refl

pub updates-Agrees :
    (ready : Bool) (p : Panel)
    → Agrees p
    → Agrees (if p.is_unmounted then p else reconcile_voice_connection ready p)
updates-Agrees ready p a =
    choice-Agrees p.is_unmounted p (reconcile_voice_connection ready p) a
      (λ u. reconcile-Agrees ready p u a)

pub media-Agrees :
    (r : String) (m : Option MediaStream) (p : Panel) → Agrees p → Agrees (media_answered r m p)
media-Agrees r m p a =
    Stays-Agrees p _ a (rw media-Owns (acquired-Owns r m p.session a.owns)) (media-Stays r m p)

pub hub-Agrees :
    (r : String) (h sw : Option ℕ) (p : Panel) → Agrees p → Agrees (hub_answered r h sw p)
unfolding hub_answered
hub-Agrees r h sw p a =
    Stays-Agrees p _ a (hub_created-Owns r h (is_in p.active_room r) sw p.session a.owns)
      (hub-Stays r h sw p)

pub hub_data-Agrees :
    (own_id : String) (m : Value) (p : Panel) → Agrees p → Agrees (handle_hub_data own_id m p)
unfolding handle_hub_data
hub_data-Agrees own_id m p a = elim (Option-cases (hub_connect_message own_id m)) [
  | inl n ↦ rw (n, handle_hub_data) a
  | inr (peer, e) ↦
      let b = peers-Agrees _ p a (register-Aside peer p.session) in
      rw (e, handle_hub_data)
        (same-Agrees _ _ b (
          refl,
          record {
            state = refl;
            room = refl;
            callbacks = refl;
            active_room = refl;
            heartbeat = refl;
            transition = refl;
            unmounted = refl;
            tasks = refl;
            next_task = refl;
            picker = refl;
          },
        ))
]
