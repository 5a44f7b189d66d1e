-- ===== src/Ring.antt =====
-- The tones of a call: `createRinger` of webapp/src/utils/callRing.js. What the browser's audio does
-- is given with each start; only the ringer closes its context.
pub mod Balance
mod Tests
use mattermost_plugin_voices.Base.{
  ℕ, suc, String, Bool, true, false, not, ◌&&◌, Option, none, some, List, [], ◌∷◌, ◌++◌, push,
  is_some, if◌then◌else◌,
}

pub data Effect : Type 0 where
  open_context close_context resume_context : ℕ → Effect
  pulses : (context : ℕ) (count : ℕ) → Effect
  set_interval clear_interval : ℕ → Effect

-- What a start meets: no AudioContext, one whose constructor throws, one that cannot make the first
-- pulses, and one that plays; `suspended` says that it must be resumed.
pub data Audio : Type 0 where
  missing blocked : Audio
  mute plays : (suspended : Bool) → Audio

pub record Ringer : Type 0 where
  pub ctx : Option ℕ
  pub cycle_timer : Option ℕ
  pub next : ℕ
  pub log : List Effect

abbrev pub new_ringer : Ringer
new_ringer = record { ctx = none; cycle_timer = none; next = 0; log = [] }

abbrev pub emit : List Effect → Ringer → Ringer
emit es r = record r { log = push es r.log }

abbrev pub cleared : Option ℕ → List Effect
cleared none = []
cleared (some t) = clear_interval t ∷ []

abbrev pub closed : Option ℕ → List Effect
closed none = []
closed (some c) = close_context c ∷ []

-- `stop`, with the context not closed before
unfoldable pub stop : Ringer → Ringer
stop r = emit (cleared r.cycle_timer ++ closed r.ctx) (record r { ctx = none; cycle_timer = none })

-- `ctx = new AudioContextCtor()`, resumed
abbrev pub opened : (suspended : Bool) → Ringer → Ringer
opened suspended r =
    emit (open_context r.next ∷ (if suspended then resume_context r.next ∷ [] else []))
      (record r { ctx = some r.next; next = suc r.next })

-- `playCycle`, by a start or by the interval
unfoldable pub play_cycle : (pulse_count : ℕ) → Ringer → Ringer
play_cycle pulse_count r = elim r.ctx [ none ↦ r | some c ↦ emit (pulses c pulse_count ∷ []) r ]

-- what `start` does after `stop`
unfoldable pub ring : (pulse_count : ℕ) → Audio → Ringer → Ringer
unfolding play_cycle
ring pulse_count missing r = r
ring pulse_count blocked r = r
ring pulse_count (mute suspended) r = opened suspended r
ring pulse_count (plays suspended) r =
    let q = play_cycle pulse_count (opened suspended r) in
    emit (set_interval q.next ∷ []) (record q { cycle_timer = some q.next; next = suc q.next })

-- `start`
unfoldable pub start : (pulse_count : ℕ) → Audio → Ringer → Ringer
unfolding stop ring
start pulse_count audio r = ring pulse_count audio (stop r)

pub data Event : Type 0 where
  starts : Audio → Event
  stops cycles : Event

unfoldable pub step : (pulse_count : ℕ) → Event → Ringer → Ringer
unfolding start
step n (starts audio) r = start n audio r
step n stops r = stop r
step n cycles r = play_cycle n r

unfoldable pub run : (pulse_count : ℕ) → List Event → Ringer → Ringer
unfolding step
run n [] r = r
run n (e ∷ es) r = run n es (step n e r)
