-- ===== src/Room/Places/Gone.antt =====
-- A panel that is gone, of
-- webapp/src/components/modals/audio_group_call/audio_group_call.jsx, stays gone.
use mattermost_plugin_voices.Base.{
  String, true, none, some, ◌≡◌, refl, ◌∙◌, inl, inr, arith, Bool-cases,
}
use mattermost_plugin_voices.Voice.Session.{SwarmClose}
use mattermost_plugin_voices.Room.Panel.{Panel}
use mattermost_plugin_voices.Room.Joining.{unmount}
use mattermost_plugin_voices.Room.Keeping.{step-Kept, unmount-gone}
use mattermost_plugin_voices.Room.Steps.{
  Event, mounts, joins, leaves, deletes, creates, presence_changes, unmounts, swarm_finishes,
  updates, media_arrives, hub_arrives, hub_data, rooms_arrive, beats, toggles_audio,
  toggles_speaker, peer_times_out, peer_attaches, peer_streams, peer_sends, peer_detaches, step,
  is_unmounting,
}
use mattermost_plugin_voices.Room.Places.{gone, place, Allowed}

-- A panel that is gone stays gone, whatever comes.
pub gone-Allowed : (user_id : String) (e : Event) → Allowed user_id e gone gone
gone-Allowed user_id mounts = refl
gone-Allowed user_id (joins r name how) = refl
gone-Allowed user_id (leaves how) = refl
gone-Allowed user_id (deletes r how) = refl
gone-Allowed user_id (creates r name none how) = refl
gone-Allowed user_id (creates r name (some rooms) how) = refl
gone-Allowed user_id (presence_changes c how) = ground arith
gone-Allowed user_id (unmounts how) = refl
gone-Allowed user_id (swarm_finishes n) = inl refl
gone-Allowed user_id (updates ready) = refl
gone-Allowed user_id (media_arrives r m) = refl
gone-Allowed user_id (hub_arrives r h sw) = refl
gone-Allowed user_id (hub_data m) = refl
gone-Allowed user_id (rooms_arrive e rooms) = refl
gone-Allowed user_id beats = refl
gone-Allowed user_id toggles_audio = refl
gone-Allowed user_id toggles_speaker = refl
gone-Allowed user_id (peer_times_out t from) = refl
gone-Allowed user_id (peer_attaches peer id) = refl
gone-Allowed user_id (peer_streams n id m) = refl
gone-Allowed user_id (peer_sends peer n m) = refl
gone-Allowed user_id (peer_detaches id) = refl

pub gone-place : (p : Panel) → p.is_unmounted ≡ true → place p ≡ gone
unfolding place
gone-place p u = ground arith

is_unmounting-catch : (e : Event) → is_unmounting e ≡ true → (how : SwarmClose) × (e ≡ unmounts how)
is_unmounting-catch (unmounts how) t = (how, refl)
is_unmounting-catch mounts t = ground arith
is_unmounting-catch (joins r name how) t = ground arith
is_unmounting-catch (leaves how) t = ground arith
is_unmounting-catch (deletes r how) t = ground arith
is_unmounting-catch (creates r name rooms how) t = ground arith
is_unmounting-catch (presence_changes c how) t = ground arith
is_unmounting-catch (swarm_finishes n) t = ground arith
is_unmounting-catch (updates ready) t = ground arith
is_unmounting-catch (media_arrives r m) t = ground arith
is_unmounting-catch (hub_arrives r h sw) t = ground arith
is_unmounting-catch (hub_data m) t = ground arith
is_unmounting-catch (rooms_arrive e rooms) t = ground arith
is_unmounting-catch beats t = ground arith
is_unmounting-catch toggles_audio t = ground arith
is_unmounting-catch toggles_speaker t = ground arith
is_unmounting-catch (peer_times_out n from) t = ground arith
is_unmounting-catch (peer_attaches peer id) t = ground arith
is_unmounting-catch (peer_streams n id m) t = ground arith
is_unmounting-catch (peer_sends peer n m) t = ground arith
is_unmounting-catch (peer_detaches id) t = ground arith

module _ (user_id : String) where
  step_unmounts : (how : SwarmClose) (p : Panel) → step user_id (unmounts how) p ≡ unmount how p
  unfolding step
  step_unmounts how p = refl

  pub step_gone :
      (e : Event) (p : Panel) → p.is_unmounted ≡ true → (step user_id e p).is_unmounted ≡ true
  step_gone e p u = elim (Bool-cases (is_unmounting e)) [
    | inl t ↦
        let (how, q) = is_unmounting-catch e t in rw (q, step_unmounts how p) (unmount-gone how p)
    | inr f ↦ (step-Kept user_id e p f).mounted ∙ u
  ]
