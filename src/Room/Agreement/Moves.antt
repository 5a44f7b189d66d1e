-- ===== src/Room/Agreement/Moves.antt =====
-- Entering and leaving rooms, with the close of the session, against Room/Agrees.antt.
use mattermost_plugin_voices.Base.{
  String, Bool, true, false, not, ◌&&◌, Option, none, some, List, [], ◌∷◌, ◌≡◌, refl, ◌∙◌, is_some,
  is_set, arith, Bool-cases, inl, inr, if◌then◌else◌, ◌==◌,
}
use mattermost_plugin_voices.Voice.Session.{SwarmClose}
use mattermost_plugin_voices.Room.Controller.{stop_directory}
use mattermost_plugin_voices.Room.Panel.{
  Panel, Room, Task, finish_join, nothing, delete_room, disconnected, halt_presence, clear_presence,
  emit, control, is_in,
}
use mattermost_plugin_voices.Room.Joining.{
  PresenceChange, next_transition, sound_departure, handle_join_room, leave_room_internal,
  handle_delete_room, disconnect_local_room, handle_presence_sound,
  handle_exclusive_presence_change, presence_changed, unmount, cleanup_connection, run_task,
}
use mattermost_plugin_voices.Room.Connecting.{rooms_answered, room_created, apply_rooms}
use mattermost_plugin_voices.Room.Effect.{play_leave_sound}
use mattermost_plugin_voices.Room.Older.{are_older-suc}
use mattermost_plugin_voices.Room.Agrees.{waits_older, Agrees}
use mattermost_plugin_voices.Room.Agrees.Closing.{
  is_passive, join-Agrees, leave-Quiet, reset-Agrees, gone-Agrees,
}
use mattermost_plugin_voices.Room.Agreement.Frames.{
  Stays, rooms-Stays, sound-Stays, same-Agrees, choice-Agrees,
}

-- What stopping the presence leaves.
halted :
    (p : Panel)
    → (halt_presence p).controller.presence_heartbeat ≡ none
      × (halt_presence p).session ≡ p.session
      × (halt_presence p).room_transition_id ≡ p.room_transition_id
      × (halt_presence p).is_unmounted ≡ p.is_unmounted
unfolding halt_presence
halted p = ground arith

cleared :
    (p : Panel)
    → (clear_presence p).controller.presence_heartbeat ≡ none
      × (clear_presence p).session ≡ p.session
unfolding clear_presence
cleared p = ground arith

sounded : (p : Panel) → (sound_departure p).session ≡ p.session
unfolding emit
sounded p = ground arith

halted-older : (p : Panel) → waits_older (halt_presence p) ≡ waits_older p
unfolding halt_presence
halted-older p = refl

cleared-older : (p : Panel) → waits_older (clear_presence p) ≡ waits_older p
unfolding clear_presence
cleared-older p = refl

sounded-older : (p : Panel) → waits_older (sound_departure p) ≡ waits_older p
unfolding emit
sounded-older p = if_same (is_some p.active_room)
  where
    if_same :
        (b : Bool) → waits_older (if b then emit (play_leave_sound ∷ []) p else p) ≡ waits_older p
    if_same true = refl
    if_same false = refl

next-older :
    (b : Bool) (p : Panel) → waits_older p ≡ true → waits_older (next_transition b p) ≡ true
next-older b p w =
    are_older-suc p.next_task p.room_transition_id p.tasks p.session.cleanup_callbacks w

pub handle_join_room-Agrees :
    (r name : String) (how : SwarmClose) (p : Panel)
    → is_set r ≡ true
    → Agrees p
    → Agrees (handle_join_room r name how p)
unfolding handle_join_room
handle_join_room-Agrees r name how p i a =
    let before = next_transition true (sound_departure p) in
    let (silent, same, _, _) = halted before in
    choice-Agrees (is_in p.active_room r) p _ a (λ _.
      join-Agrees (finish_join (halt_presence before).room_transition_id r name) how
        (halt_presence before) (rw (same, sounded) a.owns)
        (halted-older before ∙ next-older true (sound_departure p) (sounded-older p ∙ a.older))
        silent (ground arith))

pub leave_room_internal-Agrees :
    (t : Task) (how : SwarmClose) (p : Panel)
    → is_passive t ≡ true
    → Agrees p
    → Agrees (leave_room_internal t how p)
unfolding leave_room_internal
leave_room_internal-Agrees t how p i a =
    let before = sound_departure (next_transition false p) in
    let (silent, same) = cleared before in
    reset-Agrees _ (
      leave-Quiet t how (clear_presence before) (rw (same, sounded) a.owns)
        (cleared-older before
          ∙ sounded-older (next_transition false p)
          ∙ next-older false p a.older)
        silent i)

disconnect-Agrees : (how : SwarmClose) (p : Panel) → Agrees p → Agrees (disconnect_local_room how p)
unfolding disconnect_local_room
disconnect-Agrees how p a =
    let before = next_transition true p in
    let (silent, same, _, _) = halted before in
    reset-Agrees _ (
      leave-Quiet disconnected how (halt_presence before) (rw same a.owns)
        (halted-older before ∙ next-older true p a.older) silent refl)

pub delete-Agrees :
    (r : String) (how : SwarmClose) (p : Panel) → Agrees p → Agrees (handle_delete_room r how p)
unfolding handle_delete_room emit
delete-Agrees r how p a = elim (Bool-cases (is_in p.active_room r)) [
  | inl t ↦ simp t (leave_room_internal-Agrees (delete_room r) how p refl a)
  | inr f ↦ simp f (same-Agrees p _ a (refl, ground arith))
]

pub presence-Agrees :
    (u : String) (c : PresenceChange) (how : SwarmClose) (p : Panel)
    → Agrees p
    → Agrees (presence_changed u c how p)
unfolding presence_changed handle_exclusive_presence_change emit
presence-Agrees u c how p a =
    let q = handle_presence_sound c p in
    let b = same-Agrees p q a (sound-Stays c p) in
    elim (Bool-cases (
      c.user_id == u
      && is_in q.active_room c.previous_room_id
      && not (is_in q.active_room c.room_id))) [
        | inl t ↦ simp t (same-Agrees _ _ (disconnect-Agrees how q b) (refl, ground arith))
        | inr f ↦ simp f (same-Agrees _ _ b (refl, ground arith))
      ]

pub created-Agrees :
    (r name : String) (rooms : Option (List Room)) (how : SwarmClose) (p : Panel)
    → is_set r ≡ true
    → Agrees p
    → Agrees (room_created r name rooms how p)
unfolding room_created rooms_answered
created-Agrees r name none how p i a =
    same-Agrees p _ a (rooms-Stays "Could not create that voice channel." none p)
created-Agrees r name (some rooms) how p i a = choice-Agrees p.is_unmounted p _ a (λ _.
    handle_join_room-Agrees r name how (apply_rooms rooms p) i
      (same-Agrees p _ a (rooms-Stays "" (some rooms) p)))

directory-Stays : (p : Panel) → Stays p (control (stop_directory p.controller) p)
unfolding control stop_directory
directory-Stays p = ground arith

unmounted-cleanup :
    (how : SwarmClose) (p : Panel)
    → (cleanup_connection nothing how p).is_unmounted ≡ p.is_unmounted
unfolding cleanup_connection run_task
unmounted-cleanup how p = ground arith

pub unmount-Agrees : (how : SwarmClose) (p : Panel) → Agrees p → Agrees (unmount how p)
unfolding unmount
unmount-Agrees how p a =
    let before = record p { is_unmounted = true } in
    let (silent, same, _, gone) = halted before in
    let q = cleanup_connection nothing how (halt_presence before) in
    let quiet =
      leave-Quiet nothing how (halt_presence before) (rw same a.owns)
        (halted-older before ∙ a.older) silent refl in
    same-Agrees q _ (gone-Agrees q (unmounted-cleanup how (halt_presence before) ∙ gone) quiet)
      (refl, directory-Stays q)
