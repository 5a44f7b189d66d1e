-- ===== src/Call/Release.antt =====
-- The release of the current call and of its resources: `releaseCallResources` of
-- webapp/src/actions/index.js.
use mattermost_plugin_voices.Base.{
  ℕ, String, Bool, true, false, Option, none, some, List, [], ◌∷◌, ◌≡◌, same_refl, arith,
  any-append, eqb,
}
use mattermost_plugin_voices.Call.Session.{CallSession, is_idle, new_session, track_hub}
use mattermost_plugin_voices.Call.Listeners.{DeclineListener}
use mattermost_plugin_voices.Call.World.{
  World, release_call_resources, seal_decline, seal_cancel, open_hub,
}
use mattermost_plugin_voices.Call.Consistent.{is_ending, DeclineFits}

pub session-release_call_resources :
    (id : Option String) (w : World)
    → w.session.call_id ≡ id
    → is_ending w.session.state ≡ false
    → (is_idle w.session.state ≡ true → w.session.call_id ≡ none)
    → (is_idle w.session.state ≡ true → w.session.peer_id ≡ none)
    → (release_call_resources id w).session ≡ new_session
unfolding release_call_resources
session-release_call_resources id w e = ground (arith, same_refl id)

-- Releasing changes the session, the log and whether the listeners are live.
pub release_call_resources_frame :
    (id : Option String) (w : World)
    → let v = release_call_resources id w in
      (v.user ≡ w.user)
      × (v.profiles ≡ w.profiles)
      × (v.slice ≡ w.slice)
      × (v.decline ≡ seal_decline w.session.hubs w.decline)
      × (v.cancel ≡ seal_cancel w.session.hubs w.cancel)
unfolding release_call_resources
release_call_resources_frame id w = ground arith

-- A decline listener that fits the session is not live once the session's hubs are closed.
pub DeclineFits-seal_decline :
    (d : Option DeclineListener) (s : CallSession) (o o' : Bool)
    → DeclineFits d s o
    → DeclineFits (seal_decline s.hubs d) new_session o'
DeclineFits-seal_decline none s o o' h = tt
DeclineFits-seal_decline (some l) s o o' h = λ live. ground arith

-- Closing hubs never makes a listener live.
pub DeclineFits-seal :
    (hubs : List ℕ) (d : Option DeclineListener) (s : CallSession) (o : Bool)
    → DeclineFits d s o
    → DeclineFits (seal_decline hubs d) s o
DeclineFits-seal hubs none s o h = tt
DeclineFits-seal hubs (some l) s o h = λ live. h (ground arith)

-- A new hub is one more of the session's hubs.
pub DeclineFits-open_hub :
    (w : World) (o : Bool)
    → DeclineFits w.decline w.session o
    → DeclineFits w.decline (open_hub w).session o
unfolding open_hub
DeclineFits-open_hub w o h = fits w.decline h
  where
    fits :
        (d : Option DeclineListener)
        → DeclineFits d w.session o
        → DeclineFits d (track_hub w.next w.session) o
    fits none k = tt
    fits (some l) k =
        λ live. ground (arith, any-append (λ x. eqb x l.hub) w.session.hubs (w.next ∷ []))
