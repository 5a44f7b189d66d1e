-- ===== src/Call/World.antt =====
-- What the thunks of webapp/src/actions/index.js read and change: the host's users, the plugin's
-- slice, the module's `callSession` and the two listeners. An object that the code makes (hub, swarm,
-- watch) is named by the next free number.
use mattermost_plugin_voices.Base.{
  ℕ, suc, String, true, not, ◌&&◌, Option, none, some, List, [], ◌∷◌, push, contains_id,
  if◌then◌else◌,
}
use mattermost_plugin_voices.Users.{User}
use mattermost_plugin_voices.Call.Effect.{
  Effect, destroy_decline_stream, destroy_cancel_stream, subscribe,
}
use mattermost_plugin_voices.Call.Session.{
  CallSession, new_session, end_session, release_resources, track_hub,
}
use mattermost_plugin_voices.Call.Slice.{Slice, Action, initial_slice}
use mattermost_plugin_voices.Call.Reducers.{reduce}
use mattermost_plugin_voices.Call.Listeners.{DeclineListener, CancelListener}

pub record World : Type 0 where
  pub user : Option User
  pub profiles : String → Option User
  pub slice : Slice
  pub session : CallSession
  pub decline : Option DeclineListener
  pub cancel : Option CancelListener
  pub next : ℕ
  pub log : List Effect

-- the page after it has loaded
abbrev pub new_world : Option User → (String → Option User) → World
new_world user profiles = record {
  user = user;
  profiles = profiles;
  slice = initial_slice;
  session = new_session;
  decline = none;
  cancel = none;
  next = 0;
  log = [];
}

unfoldable pub emit : Effect → World → World
emit e w = record w { log = e ∷ w.log }

unfoldable pub dispatch : Action → World → World
dispatch a w = record w { slice = reduce w.slice a }

-- `!user || !user.id` is false
abbrev pub user_id : Option User → String
user_id none = ""
user_id (some u) = u.id

-- Closing a hub destroys the streams of its subscriptions.
abbrev pub seal_decline : List ℕ → Option DeclineListener → Option DeclineListener
seal_decline hubs none = none
seal_decline hubs (some l) = some (record l { live = l.live && not (contains_id l.hub hubs) })

abbrev pub seal_cancel : List ℕ → Option CancelListener → Option CancelListener
seal_cancel hubs none = none
seal_cancel hubs (some l) = some (record l { live = l.live && not (contains_id l.hub hubs) })

-- `callSession.releaseResources()`
unfoldable pub release : World → World
unfolding release_resources
release w =
    let (s, effects) = release_resources w.session in
    record w {
      session = s;
      log = push effects w.log;
      decline = seal_decline w.session.hubs w.decline;
      cancel = seal_cancel w.session.hubs w.cancel;
    }

-- `releaseCallResources`
unfoldable pub release_call_resources : Option String → World → World
unfolding release end_session
release_call_resources call_id w =
    let (s, effects, ended) = end_session call_id w.session in
    if ended
    then record w {
      session = s;
      log = push effects w.log;
      decline = seal_decline w.session.hubs w.decline;
      cancel = seal_cancel w.session.hubs w.cancel;
    }
    else release w

-- `trackHub(authorizedSignalHub(…))`: the new hub is named `w.next`.
unfoldable pub open_hub : World → World
unfolding track_hub
open_hub w = record w { session = track_hub w.next w.session; next = suc w.next }

unfoldable pub clear_decline : World → World
clear_decline w = elim w.decline [
  | none ↦ w
  | some l ↦ record w { decline = none; log = destroy_decline_stream ∷ w.log }
]

unfoldable pub clear_cancel : World → World
clear_cancel w = elim w.cancel [
  | none ↦ w
  | some l ↦ record w { cancel = none; log = destroy_cancel_stream ∷ w.log }
]

-- `attachOutgoingDeclineListener(hub, …)`
unfoldable pub attach_decline : (hub : ℕ) (callee_id call_id : String) → World → World
unfolding clear_decline
attach_decline hub callee_id call_id w =
    let v = clear_decline w in
    record v {
      decline = some (record { hub = hub; callee_id = callee_id; call_id = call_id; live = true });
      log = subscribe hub ∷ v.log;
    }

-- `attachIncomingCancelListener(hub, …)`
unfoldable pub attach_cancel : (hub : ℕ) (caller_id call_id : String) → World → World
unfolding clear_cancel
attach_cancel hub caller_id call_id w =
    let v = clear_cancel w in
    record v {
      cancel = some (record { hub = hub; caller_id = caller_id; call_id = call_id; live = true });
      log = subscribe hub ∷ v.log;
    }
