-- ===== src/Room/Agrees/Closing.antt =====
-- `cleanupConnection` of webapp/src/components/modals/audio_group_call/audio_group_call.jsx, with the
-- callback that it gives, against Room/Agrees.antt.
use mattermost_plugin_voices.Base.{
  ℕ, suc, Bool, true, false, none, [], ◌∷◌, ◌++◌, ◌≡◌, refl, any-append, arith, ◌⊎◌, inl, inr,
}
use mattermost_plugin_voices.Voice.Session.{
  VoiceSession, SwarmClose, at_once, later, throws, is_idle, is_active_state, is_closing, close,
}
use mattermost_plugin_voices.Voice.Ownership.{Owns, close-Owns}
use mattermost_plugin_voices.Room.Panel.{
  Panel, Task, finish_join, nothing, delete_room, disconnected, reset_active_room_state,
}
use mattermost_plugin_voices.Room.Joining.{run_task, closes_at_once, with_task, cleanup_connection}
use mattermost_plugin_voices.Room.Older.{is_older, are_older-append}
use mattermost_plugin_voices.Room.Agrees.{
  waits_older, Agrees, Settles, Settles-Agrees, Settles-run_task, is_current,
}

-- What a session is after `close`, and what of it runs the callback before it returns.
pub close-outcome :
    (d : ℕ) (how : SwarmClose) (s : VoiceSession)
    → Owns s
    → ((closes_at_once how s ≡ true) × (is_idle (close d how s).state ≡ true))
      ⊎ ((closes_at_once how s ≡ false)
          × (is_closing (close d how s).state ≡ true)
          × ((close d how s).cleanup_callbacks ≡ s.cleanup_callbacks ++ (d ∷ [])))
unfolding close
close-outcome d at_once s o = ground arith
close-outcome d later s o = ground arith
close-outcome d throws s o = ground arith

-- `cleanupConnection` up to what the callback does if it is called at once
abbrev pub closed : Task → SwarmClose → Panel → Panel
closed t how p = record p {
  tasks = with_task p.next_task t p.tasks;
  next_task = suc p.next_task;
  session = close p.next_task how p.session;
}

pub cleanup_at_once :
    (t : Task) (how : SwarmClose) (p : Panel)
    → closes_at_once how p.session ≡ true
    → cleanup_connection t how p ≡ run_task t (closed t how p)
unfolding cleanup_connection
cleanup_at_once t how p c = rw c refl

pub cleanup_later :
    (t : Task) (how : SwarmClose) (p : Panel)
    → closes_at_once how p.session ≡ false
    → cleanup_connection t how p ≡ closed t how p
unfolding cleanup_connection
cleanup_later t how p c = rw c refl

pub with_task-here : (n : ℕ) (t : Task) (tasks : ℕ → Task) → with_task n t tasks n ≡ t
with_task-here n t tasks = ground arith

closed-Settles :
    (t : Task) (how : SwarmClose) (p : Panel)
    → Owns p.session
    → p.controller.presence_heartbeat ≡ none
    → is_current p.room_transition_id t ≡ true
    → is_idle (close p.next_task how p.session).state ≡ true
    → Settles (p.next_task ∷ []) (closed t how p)
closed-Settles t how p o h c i =
    ground (arith, close-Owns p.next_task how p.session o, with_task-here p.next_task t p.tasks)

closed-older :
    (t : Task) (how : SwarmClose) (p : Panel)
    → waits_older p ≡ true
    → is_older p.room_transition_id t ≡ true
    → (close p.next_task how p.session).cleanup_callbacks
      ≡ p.session.cleanup_callbacks ++ (p.next_task ∷ [])
    → waits_older (closed t how p) ≡ true
closed-older t how p w o k =
    rw k
      (are_older-append p.next_task p.room_transition_id t p.tasks p.session.cleanup_callbacks w o)

is_current-older : (k : ℕ) (t : Task) → is_current k t ≡ true → is_older k t ≡ true
is_current-older k (finish_join j r name) h = ground arith
is_current-older k nothing h = refl
is_current-older k (delete_room r) h = refl
is_current-older k disconnected h = refl

closed-Agrees :
    (t : Task) (how : SwarmClose) (p : Panel)
    → Owns p.session
    → waits_older p ≡ true
    → p.controller.presence_heartbeat ≡ none
    → is_current p.room_transition_id t ≡ true
    → is_closing (close p.next_task how p.session).state ≡ true
    → (close p.next_task how p.session).cleanup_callbacks
      ≡ p.session.cleanup_callbacks ++ (p.next_task ∷ [])
    → Agrees (closed t how p)
closed-Agrees t how p o w h c i k = ground (
  arith,
  closed-older t how p w (is_current-older p.room_transition_id t c) k,
  close-Owns p.next_task how p.session o,
  with_task-here p.next_task t p.tasks,
  any-append (λ n. is_current p.room_transition_id (with_task p.next_task t p.tasks n))
      p.session.cleanup_callbacks (p.next_task ∷ []),
)

-- A close for a join that is wanted, with the presence stopped.
pub join-Agrees :
    (t : Task) (how : SwarmClose) (p : Panel)
    → Owns p.session
    → waits_older p ≡ true
    → p.controller.presence_heartbeat ≡ none
    → is_current p.room_transition_id t ≡ true
    → Agrees (cleanup_connection t how p)
join-Agrees t how p o w h c = elim (close-outcome p.next_task how p.session o) [
  | inl (at, i) ↦ rw (cleanup_at_once t how p at) (
      Settles-Agrees _ (
        Settles-run_task p.next_task [] t (closed t how p) (with_task-here p.next_task t p.tasks)
          (closed-Settles t how p o h c i)))
  | inr (at, i, k) ↦ rw (cleanup_later t how p at) (closed-Agrees t how p o w h c i k)
]

-- A panel with the presence stopped and no active session.
pub record Quiet (p : Panel) : Type 0 where
  pub owns : Owns p.session
  pub silent : p.controller.presence_heartbeat ≡ none
  pub older : waits_older p ≡ true
  pub inactive : is_active_state p.session.state ≡ false

-- a task that leaves the session and the room as they are
abbrev pub is_passive : Task → Bool
is_passive (finish_join k r name) = false
is_passive _ = true

passive-older : (k : ℕ) (t : Task) → is_passive t ≡ true → is_older k t ≡ true
passive-older k (finish_join j r name) h = ground arith
passive-older k nothing h = refl
passive-older k (delete_room r) h = refl
passive-older k disconnected h = refl

run_task-Quiet : (t : Task) (p : Panel) → is_passive t ≡ true → Quiet p → Quiet (run_task t p)
unfolding run_task
run_task-Quiet (finish_join k r name) p h q = ground arith
run_task-Quiet nothing p h q = q
run_task-Quiet (delete_room r) p h q = ground arith
run_task-Quiet disconnected p h q = ground arith

-- A close for a task that only leaves, with the presence stopped.
pub leave-Quiet :
    (t : Task) (how : SwarmClose) (p : Panel)
    → Owns p.session
    → waits_older p ≡ true
    → p.controller.presence_heartbeat ≡ none
    → is_passive t ≡ true
    → Quiet (cleanup_connection t how p)
leave-Quiet t how p o w h c = elim (close-outcome p.next_task how p.session o) [
  | inl (at, i) ↦
      rw (cleanup_at_once t how p at) (
        run_task-Quiet t (closed t how p) c
          (ground (arith, close-Owns p.next_task how p.session o)))
  | inr (at, i, k) ↦ rw (cleanup_later t how p at) (
      ground (
        arith,
        close-Owns p.next_task how p.session o,
        closed-older t how p w (passive-older p.room_transition_id t c) k,
      ))
]

pub reset-Agrees : (p : Panel) → Quiet p → Agrees (reset_active_room_state p)
unfolding reset_active_room_state
reset-Agrees p q = ground arith

pub gone-Agrees : (p : Panel) → p.is_unmounted ≡ true → Quiet p → Agrees p
gone-Agrees p u q = ground arith
