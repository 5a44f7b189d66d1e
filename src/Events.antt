-- ===== src/Events.antt =====
-- The sets of listeners of webapp/src/utils/voiceInviteEvents.js and voicePresenceEvents.js. A listener
-- has a number; what it does when it is called is given: whether it throws, and what it does to the
-- set.
use mattermost_plugin_voices.Base.{
  ℕ, Bool, not, List, [], ◌∷◌, ◌++◌, ◌≡◌, refl, ◌∙◌, keep, eqb, contains_id, arith, if◌then◌else◌,
}

-- what a listener does to the set
pub data Change : Type 0 where
  subscribes unsubscribes : (listener : ℕ) → Change

pub record Reaction : Type 0 where
  pub throws : Bool
  pub changes : List Change

-- The listeners in the order in which they were added, those that were called, and those whose error
-- was logged, the latest first.
pub record Bus : Type 0 where
  pub listeners : List ℕ
  pub called : List ℕ
  pub failed : List ℕ

-- `listeners.add`
unfoldable pub subscribe : (listener : ℕ) → Bus → Bus
subscribe l b =
    if contains_id l b.listeners then b else record b { listeners = b.listeners ++ (l ∷ []) }

-- the function that a subscription returns
unfoldable pub unsubscribe : (listener : ℕ) → Bus → Bus
unsubscribe l b = record b { listeners = keep (λ x. not (eqb x l)) b.listeners }

abbrev pub change : Change → Bus → Bus
change (subscribes l) b = subscribe l b
change (unsubscribes l) b = unsubscribe l b

abbrev pub change_all : List Change → Bus → Bus
change_all [] b = b
change_all (c ∷ cs) b = change_all cs (change c b)

module _ (reaction : ℕ → Reaction) where
  -- one round of the loop
  unfoldable pub call : (listener : ℕ) → Bus → Bus
  unfolding subscribe unsubscribe
  call l b =
      let c = change_all (reaction l).changes (record b { called = l ∷ b.called }) in
      if (reaction l).throws then record c { failed = l ∷ c.failed } else c

  unfoldable pub call_all : List ℕ → Bus → Bus
  unfolding call
  call_all [] b = b
  call_all (l ∷ ls) b = call_all ls (call l b)

  -- `emitVoiceInvite`, `emitVoiceInviteDecision` and `emitVoicePresenceChange`
  unfoldable pub emit : Bus → Bus
  unfolding call_all
  emit b = call_all b.listeners b

-- the order of the calls
abbrev pub onto : List ℕ → List ℕ → List ℕ
onto [] called = called
onto (l ∷ ls) called = onto ls (l ∷ called)

change-called : (c : Change) (b : Bus) → (change c b).called ≡ b.called
unfolding subscribe unsubscribe
change-called (subscribes l) b = ground arith
change-called (unsubscribes l) b = refl

change_all-called : (cs : List Change) (b : Bus) → (change_all cs b).called ≡ b.called
change_all-called [] b = refl
change_all-called (c ∷ cs) b = change_all-called cs (change c b) ∙ change-called c b

call-called :
    (reaction : ℕ → Reaction) (l : ℕ) (b : Bus) → (call reaction l b).called ≡ l ∷ b.called
unfolding call
call-called reaction l b =
    ground (arith, change_all-called (reaction l).changes (record b { called = l ∷ b.called }))

call_all-called :
    (reaction : ℕ → Reaction) (ls : List ℕ) (b : Bus)
    → (call_all reaction ls b).called ≡ onto ls b.called
unfolding call_all
call_all-called reaction [] b = refl
call_all-called reaction (l ∷ ls) b =
    call_all-called reaction ls (call reaction l b) ∙ rw (call-called reaction l b) refl

-- An event reaches each listener that was in the set when it came, once and in the order of the set,
-- whichever of them throw, subscribe others, or unsubscribe those that are still to be called.
pub emit-called :
    (reaction : ℕ → Reaction) (b : Bus) → (emit reaction b).called ≡ onto b.listeners b.called
unfolding emit
emit-called reaction b = call_all-called reaction b.listeners b
