-- ===== src/Room/Older.antt =====
-- The joins among the callbacks of a close, in the order of their transitions:
-- webapp/src/components/modals/audio_group_call/audio_group_call.jsx.
use mattermost_plugin_voices.Base.{
  ℕ, suc, Bool, true, ◌&&◌, List, [], ◌∷◌, ◌++◌, ◌≡◌, refl, all, ltb, leb, arith,
}
use mattermost_plugin_voices.Room.Panel.{Task, finish_join}
use mattermost_plugin_voices.Room.Joining.{with_task}

abbrev pub is_older : (transition_id : ℕ) → Task → Bool
is_older transition_id (finish_join t room_id name) = leb t transition_id
is_older transition_id _ = true

-- Every callback has a number that was given, and no join among them is of a later transition.
abbrev pub are_older : (next_task transition_id : ℕ) (tasks : ℕ → Task) → List ℕ → Bool
are_older next_task transition_id tasks callbacks =
    all (λ n. ltb n next_task && is_older transition_id (tasks n)) callbacks

is_older-suc : (k : ℕ) (t : Task) → is_older k t ≡ true → is_older (suc k) t ≡ true
is_older-suc k (finish_join j r name) h = ground arith
is_older-suc k Task.nothing h = refl
is_older-suc k (Task.delete_room r) h = refl
is_older-suc k Task.disconnected h = refl

pub are_older-suc :
    (m k : ℕ) (tasks : ℕ → Task) (ns : List ℕ)
    → are_older m k tasks ns ≡ true
    → are_older m (suc k) tasks ns ≡ true
are_older-suc m k tasks [] h = refl
are_older-suc m k tasks (n ∷ ns) h =
    ground (arith, are_older-suc m k tasks ns, is_older-suc k (tasks n))

pub are_older-append :
    (m k : ℕ) (t : Task) (tasks : ℕ → Task) (ns : List ℕ)
    → are_older m k tasks ns ≡ true
    → is_older k t ≡ true
    → are_older (suc m) k (with_task m t tasks) (ns ++ (m ∷ [])) ≡ true
are_older-append m k t tasks [] h o = ground arith
are_older-append m k t tasks (n ∷ ns) h o = ground (arith, are_older-append m k t tasks ns)
