-- ===== src/Voice/Closing.antt =====
-- How a close of a voice session ends: webapp/src/utils/voiceSession.js.
use mattermost_plugin_voices.Base.{
  ℕ, suc, String, Bool, true, false, ◌&&◌, ◌||◌, Option, none, some, List, [], ◌∷◌, ◌++◌, map, ◌≡◌,
  refl, ap, sym, ◌∙◌, push, is_some, arith, any, eqb, if◌then◌else◌,
}
use mathlib.Core.List.{append-nil, append_assoc}
use mattermost_plugin_voices.Media.{MediaStream}
use mattermost_plugin_voices.Voice.Effect.{
  Effect, run_callback, close_hub, clear_timer, stop_track, set_timer, close_swarm, pause_audio,
  emit_peers,
}
use mattermost_plugin_voices.Voice.Session.{
  VoiceSession, idle, closing, Pending, SwarmClose, at_once, later, throws, is_closing,
  close_hub_of, clear_timeout, stop_stream, close, finish, is_active, acquired, hub_created,
}

abbrev pub is_close_of : ℕ → Effect → Bool
is_close_of hub (close_hub h) = eqb h hub
is_close_of hub _ = false

-- More calls of `close` while one is under way, each with its callback.
pub close_again : List ℕ → VoiceSession → VoiceSession
close_again [] s = s
close_again (d ∷ ds) s = close_again ds (close d later s)

close-closing :
    (d : ℕ) (how : SwarmClose) (s : VoiceSession)
    → s.state ≡ closing
    → close d how s ≡ record s { cleanup_callbacks = s.cleanup_callbacks ++ (d ∷ []) }
unfolding close
close-closing d how s c = ground arith

close_again-closing :
    (ds : List ℕ) (s : VoiceSession)
    → s.state ≡ closing
    → close_again ds s ≡ record s { cleanup_callbacks = s.cleanup_callbacks ++ ds }
unfolding close_again
close_again-closing [] s c =
    ap (λ (cs : List ℕ). record s { cleanup_callbacks = cs }) (sym (append-nil s.cleanup_callbacks))
close_again-closing (d ∷ ds) s c =
    ap (close_again ds) (close-closing d later s c)
    ∙ close_again-closing ds (record s { cleanup_callbacks = s.cleanup_callbacks ++ (d ∷ []) }) c
    ∙ ap (λ (cs : List ℕ). record s { cleanup_callbacks = cs })
        (append_assoc s.cleanup_callbacks (d ∷ []) ds)

-- A close that waits for its swarm.
close-later :
    (d sw : ℕ) (s : VoiceSession)
    → is_closing s.state ≡ false
    → s.swarm ≡ some sw
    → let t = close d later s in
      (t.state ≡ closing)
      × (t.cleanup_callbacks ≡ d ∷ [])
      × (t.pending ≡ some (record { number = s.next; hub = s.hub; timeout = some (suc s.next) }))
unfolding close
close-later d sw s c e = ground arith

finish-pending :
    (n : ℕ) (p : Pending) (s : VoiceSession)
    → s.pending ≡ some p
    → p.number ≡ n
    → let t = finish n s in
      (t.state ≡ idle)
      × (t.cleanup_callbacks ≡ [])
      × (t.pending ≡ none)
      × (t.log
          ≡ push
              (clear_timeout p.timeout
                ++ (close_hub_of p.hub ++ map run_callback s.cleanup_callbacks))
              s.log)
unfolding finish
finish-pending n p s e k = ground arith

finish-completed : (n : ℕ) (s : VoiceSession) → s.pending ≡ none → finish n s ≡ s
unfolding finish
finish-completed n s e = ground arith

-- While a close waits for its swarm, further closes only leave their callbacks. When it finishes, by
-- the swarm or by the timeout, the timeout is cleared, the hub is closed and every callback is run
-- once, in the order of the calls; the session is idle, and finishing again changes nothing.
pub finish-close_again :
    (d sw : ℕ) (ds : List ℕ) (s : VoiceSession)
    → is_closing s.state ≡ false
    → s.swarm ≡ some sw
    → let waiting = close_again ds (close d later s) in
      let t = finish s.next waiting in
      (t.state ≡ idle)
      × (t.cleanup_callbacks ≡ [])
      × (t.log
          ≡ push
              (clear_timer (suc s.next) ∷ (close_hub_of s.hub ++ map run_callback (d ∷ ds)))
              (close d later s).log)
      × (finish s.next t ≡ t)
finish-close_again d sw ds s c e =
    let (closes, called, waits) = close-later d sw s c e in
    let w = close_again-closing ds (close d later s) closes in
    let f =
      finish-pending s.next (record { number = s.next; hub = s.hub; timeout = some (suc s.next) })
        (close_again ds (close d later s)) (rw w waits) refl in
    (f.0, f.1, f.3 ∙ rw w (rw called), finish-completed s.next _ f.2)

-- what a close lets go of at once
abbrev pub let_go_effects : VoiceSession → List Effect
let_go_effects s =
    map clear_timer s.peer_timers
    ++ (map (λ (p : String × ℕ). pause_audio p.1) s.playbacks
        ++ (emit_peers [] ∷ stop_stream s.stream))

-- and what it does with the swarm
abbrev pub swarm_effects : VoiceSession → List Effect
swarm_effects s = elim s.swarm [
  | none ↦ []
  | some sw ↦ set_timer (suc s.next) ∷ close_swarm sw ∷ clear_timer (suc s.next) ∷ []
]

-- Whatever the swarm does, a close that begins is over once its `finish` has been called: the
-- session is idle and holds nothing; the peers' timers were cleared, the playbacks paused and the
-- tracks stopped, then the swarm, if there was one, was closed under a timeout that was armed before
-- and cleared after, and then the hub was closed and the callback run, each of these once.
pub finish-close :
    (d : ℕ) (how : SwarmClose) (s : VoiceSession)
    → is_closing s.state ≡ false
    → let t = finish s.next (close d how s) in
      (t.state ≡ idle)
      × (t.room_id ≡ none)
      × (t.stream ≡ none)
      × (t.hub ≡ none)
      × (t.swarm ≡ none)
      × (t.peers ≡ [])
      × (t.peer_timers ≡ [])
      × (t.playbacks ≡ [])
      × (t.log
          ≡ push
              (close_hub_of s.hub ++ (run_callback d ∷ []))
              (push (swarm_effects s) (push (let_go_effects s) s.log)))
unfolding close
finish-close d at_once s c = ground arith
finish-close d later s c = ground arith
finish-close d throws s c = ground arith

-- A stream that the browser grants is kept exactly for the room that is still active; for any other
-- every track of it is stopped, and the session keeps the stream that it had.
pub acquired-some :
    (room_id : String) (m : MediaStream) (s : VoiceSession)
    → let (t, a) = acquired room_id (some m) s in
      (a.active ≡ is_active room_id s)
      × (t.stream ≡ (if is_active room_id s then some m else s.stream))
      × (t.log ≡ (if is_active room_id s then s.log else push (map stop_track m.tracks) s.log))
unfolding acquired
acquired-some room_id m s = ground arith

-- A hub that arrives is kept, with its swarm, exactly when the room is still active, the caller still
-- wants it and the swarm could be made; otherwise the session keeps the connection that it had, and
-- the hub is closed.
pub hub_created_kept :
    (room_id : String) (hub : ℕ) (is_current : Bool) (swarm : Option ℕ) (s : VoiceSession)
    → let (t, kept) = hub_created room_id (some hub) is_current swarm s in
      (kept ≡ (is_active room_id s && is_current && is_some swarm))
      × (t.hub ≡ (if kept then some hub else s.hub))
      × (t.swarm ≡ (if kept then swarm else s.swarm))
      × ((kept || any (is_close_of hub) t.log) ≡ true)
unfolding hub_created
hub_created_kept room_id hub is_current none s = ground arith
hub_created_kept room_id hub is_current (some sw) s = ground arith
