-- ===== src/Call/Teardown.antt =====
-- What `endCall` of webapp/src/actions/index.js closes: `releaseResources` of
-- webapp/src/utils/callSession.js.
use mattermost_plugin_voices.Base.{
  ℕ, String, Bool, true, false, ◌||◌, Option, List, [], ◌∷◌, ◌≡◌, refl, ap, map, push, any, eqb,
  contains_id, arith, any-push, any-append,
}
use mattermost_plugin_voices.Call.Effect.{
  Effect, close_hub, close_swarm, cancel_watch, stop_incoming_ring, stop_outgoing_ringback,
}
use mattermost_plugin_voices.Call.Session.{CallSession, release_resources}
use mattermost_plugin_voices.Call.World.{
  World, release_call_resources, emit, clear_cancel, clear_decline, open_hub,
}
use mattermost_plugin_voices.Call.Ending.{end_call, announce_cancel}

abbrev pub is_close_hub : ℕ → Effect → Bool
is_close_hub n (close_hub m) = eqb m n
is_close_hub n _ = false

abbrev pub is_close_swarm : ℕ → Effect → Bool
is_close_swarm n (close_swarm m) = eqb m n
is_close_swarm n _ = false

abbrev pub is_cancel_watch : ℕ → Effect → Bool
is_cancel_watch n (cancel_watch m) = eqb m n
is_cancel_watch n _ = false

close_hubs :
    (n : ℕ) (hubs : List ℕ) → any (is_close_hub n) (map close_hub hubs) ≡ contains_id n hubs
close_hubs n [] = refl
close_hubs n (h ∷ hubs) = ap (λ b. eqb h n || b) (close_hubs n hubs)

close_swarms :
    (n : ℕ) (swarms : List ℕ)
    → any (is_close_swarm n) (map close_swarm swarms) ≡ contains_id n swarms
close_swarms n [] = refl
close_swarms n (h ∷ swarms) = ap (λ b. eqb h n || b) (close_swarms n swarms)

cancel_watches :
    (n : ℕ) (watches : List ℕ)
    → any (is_cancel_watch n) (map cancel_watch watches) ≡ contains_id n watches
cancel_watches n [] = refl
cancel_watches n (h ∷ watches) = ap (λ b. eqb h n || b) (cancel_watches n watches)

pub release_log :
    (id : Option String) (w : World)
    → (release_call_resources id w).log ≡ push (release_resources w.session).1 w.log
unfolding release_call_resources release_resources
release_log id w = ground arith

-- An effect of a kind is in the log after the release if it is among the release's effects.
logged :
    (p : Effect → Bool) (id : Option String) (w : World)
    → any p (release_resources w.session).1 ≡ true
    → any p (release_call_resources id w).log ≡ true
logged p id w h = rw (release_log, any-push, h)

releases_hub :
    (n : ℕ) (s : CallSession)
    → contains_id n s.hubs ≡ true
    → any (is_close_hub n) (release_resources s).1 ≡ true
unfolding release_resources
releases_hub n s h = rw (any-append, any-append, any-append, close_hubs) (ground arith)

releases_swarm :
    (n : ℕ) (s : CallSession)
    → contains_id n s.swarms ≡ true
    → any (is_close_swarm n) (release_resources s).1 ≡ true
unfolding release_resources
releases_swarm n s h = rw (any-append, any-append, any-append, close_swarms) (ground arith)

releases_watch :
    (n : ℕ) (s : CallSession)
    → contains_id n s.watches ≡ true
    → any (is_cancel_watch n) (release_resources s).1 ≡ true
unfolding release_resources
releases_watch n s h = rw (any-append, any-append, any-append, cancel_watches) (ground arith)

-- The world that `endCall` releases has the call's resources, and may have one more hub.
abbrev before_release : World → World
before_release w =
    clear_cancel
      (clear_decline (emit stop_outgoing_ringback (emit stop_incoming_ring (announce_cancel w))))

before_release_holds :
    (n : ℕ) (w : World)
    → let v = before_release w in
      (v.session.swarms ≡ w.session.swarms)
      × (v.session.watches ≡ w.session.watches)
      × (contains_id n w.session.hubs ≡ true → contains_id n v.session.hubs ≡ true)
unfolding announce_cancel open_hub emit clear_decline clear_cancel
before_release_holds n w = ground (arith, any-append (λ x. eqb x n) w.session.hubs (w.next ∷ []))

end_call-log :
    (p : Effect → Bool) (w : World)
    → any p (release_resources (before_release w).session).1 ≡ true
    → any p (end_call w).log ≡ true
unfolding end_call
end_call-log p w h = logged p w.slice.active_call_id (before_release w) h

-- what a session tracks, by its number
pub data Resource : Type 0 where
  hub swarm watch : ℕ → Resource

-- It is tracked, whatever else is.
abbrev pub is_tracked : Resource → CallSession → Bool
is_tracked (hub n) s = contains_id n s.hubs
is_tracked (swarm n) s = contains_id n s.swarms
is_tracked (watch n) s = contains_id n s.watches

-- the effect that ends it
abbrev pub is_end_of : Resource → Effect → Bool
is_end_of (hub n) e = is_close_hub n e
is_end_of (swarm n) e = is_close_swarm n e
is_end_of (watch n) e = is_cancel_watch n e

-- Ending a call closes each hub and each swarm and cancels each watch that the session tracks, also
-- where it tracks nothing of another kind.
pub end_call_closes :
    (r : Resource) (w : World)
    → is_tracked r w.session ≡ true
    → any (is_end_of r) (end_call w).log ≡ true
end_call_closes (hub n) w h =
    end_call-log (is_close_hub n) w (releases_hub n _ ((before_release_holds n w).2 h))
end_call_closes (swarm n) w h =
    end_call-log (is_close_swarm n) w (releases_swarm n _ (rw ((before_release_holds n w).0) h))
end_call_closes (watch n) w h =
    end_call-log (is_cancel_watch n) w (releases_watch n _ (rw ((before_release_holds n w).1) h))
