-- ===== src/Room/Places/Runs.antt =====
-- The events of Room/Steps.antt, of
-- webapp/src/components/modals/audio_group_call/audio_group_call.jsx, lead from place to place as
-- Room/Places.antt allows.
use mathlib.Core.Path.{subst}
use mattermost_plugin_voices.Base.{
  String, true, false, none, some, List, [], ◌∷◌, ◌≡◌, refl, inl, inr, all, arith, Bool-cases,
}
use mattermost_plugin_voices.Voice.Ownership.{
  timed_out-Aside, attach-Aside, stream-Aside, data-Aside, detach-Aside,
}
use mattermost_plugin_voices.Room.Panel.{Panel, nothing, new_panel}
use mattermost_plugin_voices.Room.Joining.{unmount, handle_leave_room}
use mattermost_plugin_voices.Room.Agrees.{Agrees}
use mattermost_plugin_voices.Room.Agreement.{names_room, step-Agrees, run-Agrees, new_panel-Agrees}
use mattermost_plugin_voices.Room.Agreement.Frames.{
  rooms-Stays, mounts-Stays, media-Stays, hub-Stays, beats-Stays, audio-Stays, speaker-Stays,
}
use mattermost_plugin_voices.Room.Keeping.{unmount-gone}
use mattermost_plugin_voices.Room.Steps.{
  Event, mounts, joins, leaves, deletes, creates, presence_changes, unmounts, swarm_finishes,
  updates, local, media_arrives, hub_arrives, hub_data, rooms_arrive, beats, toggles_audio,
  toggles_speaker, peer_times_out, peer_attaches, peer_streams, peer_sends, peer_detaches, step,
  run,
}
use mattermost_plugin_voices.Room.Places.{outside, gone, place, Allowed, Leads, stop, move, Holds}
use mattermost_plugin_voices.Room.Places.Changes.{join-Joins, room-Leaves}
use mattermost_plugin_voices.Room.Places.Gone.{gone-Allowed, gone-place, step_gone}
use mattermost_plugin_voices.Room.Places.Handlers.{
  moved, refused-place, choice-place, delete-Allowed, create-Allowed, presence-Allowed,
  reconcile-Stays, hub_data-place, Aside-place,
}
use mattermost_plugin_voices.Room.Places.Refines.{Stays-place, finish-Arrives}

module _ (user_id : String) where
  mounted-Allowed :
      (e : Event) (p : Panel)
      → names_room e ≡ true
      → Agrees p
      → p.is_unmounted ≡ false
      → Allowed user_id e (place p) (place (step user_id e p))
  unfolding step handle_leave_room
  mounted-Allowed mounts p i a u = Stays-place p _ (mounts-Stays p).1
  mounted-Allowed (joins r name how) p i a u = join-Joins r name how p a u i
  mounted-Allowed (leaves how) p i a u = room-Leaves nothing how p a u refl
  mounted-Allowed (deletes r how) p i a u = delete-Allowed r how p a u
  mounted-Allowed (creates r name none how) p i a u = refused-place r name how p
  mounted-Allowed (creates r name (some rooms) how) p i a u =
      create-Allowed r name rooms how p a u i
  mounted-Allowed (presence_changes c how) p i a u = presence-Allowed user_id c how p a u
  mounted-Allowed (unmounts how) p i a u = gone-place (unmount how p) (unmount-gone how p)
  mounted-Allowed (swarm_finishes n) p i a u = finish-Arrives n p a u
  mounted-Allowed (updates ready) p i a u =
      choice-place p.is_unmounted p _ (Stays-place p _ (reconcile-Stays ready p a u))
  mounted-Allowed (media_arrives r m) p i a u = Stays-place p _ (media-Stays r m p)
  mounted-Allowed (hub_arrives r h sw) p i a u = Stays-place p _ (hub-Stays r h sw p)
  mounted-Allowed (hub_data m) p i a u = hub_data-place user_id m p
  mounted-Allowed (rooms_arrive e rooms) p i a u = Stays-place p _ (rooms-Stays e rooms p).1
  mounted-Allowed beats p i a u = Stays-place p _ (beats-Stays p).1
  mounted-Allowed toggles_audio p i a u = Stays-place p _ (audio-Stays p).0
  mounted-Allowed toggles_speaker p i a u = Stays-place p _ (speaker-Stays p).0
  mounted-Allowed (peer_times_out t from) p i a u =
      Aside-place _ p (timed_out-Aside t from p.session)
  mounted-Allowed (peer_attaches peer id) p i a u =
      Aside-place _ p (attach-Aside peer id user_id p.session)
  mounted-Allowed (peer_streams n id m) p i a u =
      Aside-place _ p (stream-Aside n id m p.speaker_on p.session)
  mounted-Allowed (peer_sends peer n m) p i a u =
      Aside-place _ p (data-Aside peer n (local p) m p.session)
  mounted-Allowed (peer_detaches id) p i a u = Aside-place _ p (detach-Aside id p.session)

  step-Allowed :
      (e : Event) (p : Panel)
      → names_room e ≡ true
      → Agrees p
      → Allowed user_id e (place p) (place (step user_id e p))
  step-Allowed e p i a = elim (Bool-cases p.is_unmounted) [
    | inl u ↦
        moved (Allowed user_id e) gone (place p) gone _ (gone-place p u)
          (gone-place _ (step_gone user_id e p u)) (gone-Allowed user_id e)
    | inr u ↦ mounted-Allowed e p i a u
  ]

  run-Leads_from :
      (es : List Event) (p : Panel)
      → all names_room es ≡ true
      → Agrees p
      → Leads user_id es (place p) (place (run user_id es p))
  unfolding run
  run-Leads_from [] p i a = stop
  run-Leads_from (e ∷ es) p i a = move (step-Allowed e p (ground arith) a) (
      run-Leads_from es (step user_id e p) (ground arith)
        (step-Agrees user_id e p (ground arith) a))

new_panel-place : place new_panel ≡ outside
unfolding place
new_panel-place = refl

-- What the place says of the session.
place-Holds : (p : Panel) → Agrees p → Holds (place p) p
unfolding place
place-Holds p a = ground (arith, a.owns)

-- The panel refines the machine of places. After any events at all in which every room that is entered
-- has a name, the place of the panel is one that these events may lead to from outside: a join is done
-- at once or on the way out of a room, a leave likewise, the way out ends in the room that was asked
-- for last, or outside, a deletion and another tab leave only a room that is shown, and nothing else
-- moves the user. The place tells what the voice session does: it is active in the room that the user
-- is inside, idle outside, closing on the way, and not active once the panel is gone.
pub run-Leads :
    (user_id : String) (es : List Event)
    → all names_room es ≡ true
    → let p = run user_id es new_panel in Leads user_id es outside (place p) × Holds (place p) p
run-Leads user_id es i = (
  subst (λ a. Leads user_id es a (place (run user_id es new_panel))) new_panel-place
      (run-Leads_from user_id es new_panel i (new_panel-Agrees user_id)),
  place-Holds (run user_id es new_panel) (run-Agrees user_id es i),
)
