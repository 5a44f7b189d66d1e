-- ===== src/Startup/Once.antt =====
-- How often the configuration is loaded: `whenStoreReady` of webapp/src/index.js.
use mattermost_plugin_voices.Base.{
  ℕ, suc, Bool, true, false, ◌&&◌, ◌||◌, List, [], ◌∷◌, ◌++◌, ◌≡◌, refl, ap, sym, ◌∙◌, any, arith,
  if◌then◌else◌,
}
use mathlib.Core.List.{append-nil}
use Prim.Native.Nat.{◌+◌}
use mattermost_plugin_voices.Startup.{Waiting, on_change, when_store_ready, all_changes}

abbrev pub is_true : Bool → Bool
is_true b = b

-- Each call comes while `onChange` is subscribed.
abbrev pub are_timely : (calls : List Bool) → Waiting → Bool
are_timely [] s = true
are_timely (ready ∷ rest) s = s.subscribed && are_timely rest (on_change ready s)

abbrev pub count_true : List Bool → ℕ
count_true [] = 0
count_true (b ∷ bs) = (if b then 1 else 0) + count_true bs

-- it was run
abbrev pub ran : ℕ → Waiting
ran n = record { subscribed = false; runs = n }

-- it waits
abbrev pub waiting : Waiting
waiting = record { subscribed = true; runs = 0 }

all_changes-ran : (n : ℕ) (rs : List Bool) → all_changes rs (ran n) ≡ ran (count_true rs + n)
unfolding all_changes on_change
all_changes-ran n [] = ground arith
all_changes-ran n (true ∷ rs) = ground (arith, all_changes-ran (suc n) rs)
all_changes-ran n (false ∷ rs) = ground (arith, all_changes-ran n rs)

all_changes-waiting :
    (rs late : List Bool)
    → are_timely rs waiting ≡ true
    → all_changes (rs ++ late) waiting
      ≡ (if any is_true rs then ran (count_true late + 1) else all_changes late waiting)
unfolding all_changes on_change
all_changes-waiting [] late t = refl
all_changes-waiting (true ∷ []) late t = all_changes-ran 1 late
all_changes-waiting (true ∷ (r ∷ rs)) late t = absurd (ground arith)
all_changes-waiting (false ∷ rs) late t = all_changes-waiting rs late t

all_changes-late :
    (at_first at_end : Bool) (calls late : List Bool)
    → are_timely calls (when_store_ready at_first at_end) ≡ true
    → all_changes (calls ++ late) (when_store_ready at_first at_end) ≡ (
        if at_first || at_end || any is_true calls
        then ran (count_true late + 1)
        else all_changes late waiting)
unfolding when_store_ready on_change
all_changes-late true at_end [] late t = all_changes-ran 1 late
all_changes-late true at_end (r ∷ rs) late t = absurd (ground arith)
all_changes-late false true [] late t = all_changes-ran 1 late
all_changes-late false true (r ∷ rs) late t = absurd (ground arith)
all_changes-late false false calls late t = all_changes-waiting calls late t

-- As long as the store calls `onChange` only while it is subscribed, what waits for the store is run
-- once, and the subscription is gone, however the store becomes ready, at once, while the plugin
-- subscribes or at a later call; if it never was ready, it was not run and the subscription stands. A
-- store that calls `onChange` after it has run, as one that is in the middle of calling its listeners
-- may, runs it once more in each such call that finds the store ready.
pub when_store_ready-once :
    (at_first at_end : Bool) (calls late : List Bool)
    → are_timely calls (when_store_ready at_first at_end) ≡ true
    → let s = when_store_ready at_first at_end in
      let ready = at_first || at_end || any is_true calls in
      (all_changes calls s ≡ (if ready then ran 1 else waiting))
      × (all_changes (calls ++ late) s
          ≡ (if ready then ran (count_true late + 1) else all_changes late waiting))
unfolding all_changes
when_store_ready-once at_first at_end calls late t = (
  ap (λ cs. all_changes cs (when_store_ready at_first at_end)) (sym (append-nil calls))
      ∙ all_changes-late at_first at_end calls [] t,
  all_changes-late at_first at_end calls late t,
)
