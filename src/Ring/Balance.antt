-- ===== src/Ring/Balance.antt =====
-- No context and no interval of a ringer is lost: webapp/src/utils/callRing.js.
use mattermost_plugin_voices.Base.{
  ℕ, ◌+◌, Option, none, some, List, [], ◌∷◌, ◌≡◌, refl, arith, eqb, if◌then◌else◌,
}
use mattermost_plugin_voices.Ring.{
  Effect, open_context, close_context, set_interval, clear_interval, Audio, missing, blocked, mute,
  plays, Ringer, new_ringer, stop, play_cycle, ring, Event, starts, stops, cycles, step, run,
}

-- 1 for the number n itself
abbrev one : (n m : ℕ) → ℕ
one n m = if eqb n m then 1 else 0

abbrev opens : (n : ℕ) → Effect → ℕ
opens n (open_context c) = one n c
opens n _ = 0

abbrev closes : (n : ℕ) → Effect → ℕ
closes n (close_context c) = one n c
closes n _ = 0

abbrev sets : (n : ℕ) → Effect → ℕ
sets n (set_interval t) = one n t
sets n _ = 0

abbrev clears : (n : ℕ) → Effect → ℕ
clears n (clear_interval t) = one n t
clears n _ = 0

abbrev total : (Effect → ℕ) → List Effect → ℕ
total f [] = 0
total f (e ∷ es) = f e + total f es

abbrev held : (n : ℕ) → Option ℕ → ℕ
held n none = 0
held n (some m) = one n m

-- The context and the interval with the number n were closed as often as they were opened, but for
-- those that the ringer holds.
pub record Balanced (n : ℕ) (r : Ringer) : Type 0 where
  pub contexts : total (opens n) r.log ≡ total (closes n) r.log + held n r.ctx
  pub intervals : total (sets n) r.log ≡ total (clears n) r.log + held n r.cycle_timer

stop-Balanced : (k : ℕ) (r : Ringer) → Balanced k r → Balanced k (stop r)
unfolding stop
stop-Balanced k r b = ground (arith, b.contexts, b.intervals)

play-Balanced : (k n : ℕ) (r : Ringer) → Balanced k r → Balanced k (play_cycle n r)
unfolding play_cycle
play-Balanced k n r b = ground (arith, b.contexts, b.intervals)

stop-Silent : (r : Ringer) → ((stop r).ctx ≡ none) × ((stop r).cycle_timer ≡ none)
unfolding stop
stop-Silent r = (refl, refl)

ring-Balanced :
    (k n : ℕ) (a : Audio) (r : Ringer)
    → r.ctx ≡ none
    → r.cycle_timer ≡ none
    → Balanced k r
    → Balanced k (ring n a r)
unfolding ring
ring-Balanced k n missing r c t b = b
ring-Balanced k n blocked r c t b = b
ring-Balanced k n (mute s) r c t b = ground (arith, b.contexts, b.intervals)
ring-Balanced k n (plays s) r c t b = ground (arith, b.contexts, b.intervals)

step-Balanced : (k n : ℕ) (e : Event) (r : Ringer) → Balanced k r → Balanced k (step n e r)
unfolding step
step-Balanced k n (starts a) r b =
    ring-Balanced k n a (stop r) (stop-Silent r).0 (stop-Silent r).1 (stop-Balanced k r b)
step-Balanced k n stops r b = stop-Balanced k r b
step-Balanced k n cycles r b = play-Balanced k n r b

run-Balanced_from :
    (k n : ℕ) (es : List Event) (r : Ringer) → Balanced k r → Balanced k (run n es r)
unfolding run
run-Balanced_from k n [] r b = b
run-Balanced_from k n (e ∷ es) r b = run-Balanced_from k n es (step n e r) (step-Balanced k n e r b)

-- After any starts, stops and cycles, each context is closed as often as it was opened and each
-- interval cleared as often as it was set, one by one, but for the context and the interval that the
-- ringer holds.
pub run-Balanced : (k n : ℕ) (es : List Event) → Balanced k (run n es new_ringer)
run-Balanced k n es =
    run-Balanced_from k n es new_ringer (record { contexts = refl; intervals = refl })
