-- ===== src/Startup/Tests.antt =====
-- A store that becomes ready at its second change, and calls once more: the theorem at it.
use Prim.Native.Nat.{◌+◌}
use mattermost_plugin_voices.Base.{true, false, [], ◌∷◌, ◌++◌, ◌≡◌, refl}
use mattermost_plugin_voices.Startup.{when_store_ready, all_changes, on_change}
use mattermost_plugin_voices.Startup.Once.{ran, count_true, when_store_ready-once}

when_store_ready-once_example :
    let s = when_store_ready false false in
    (all_changes (false ∷ true ∷ []) s ≡ ran 1)
    × (all_changes ((false ∷ true ∷ []) ++ (true ∷ [])) s ≡ ran (count_true (true ∷ []) + 1))
unfolding when_store_ready on_change
when_store_ready-once_example =
    when_store_ready-once false false (false ∷ true ∷ []) (true ∷ []) refl
