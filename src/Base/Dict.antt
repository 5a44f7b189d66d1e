-- ===== src/Base/Dict.antt =====
-- A JavaScript object used as a dictionary with text keys.
use Prim.Native.String.{String}
use text.Mathlib.Text.{◌==◌}
use text.Mathlib.TextEquality.{eq_iff}
use mathlib.Core.Path.{◌≡◌, refl}
use mathlib.Core.Option.{Option, none, some}
use mathlib.Core.List.{List, [], ◌∷◌}
use native.Mathlib.Omega.{arith}
use mattermost_plugin_voices.Base.Tests.{if◌then◌else◌}

module _ {ℓ} {V : Type ℓ} where
  abbrev pub find : String → List (String × V) → Option V
  find k [] = none
  find k ((j, v) ∷ d) = if j == k then some v else find k d

  -- `d[k] = v`
  abbrev pub put : String → V → List (String × V) → List (String × V)
  put k v [] = (k, v) ∷ []
  put k v ((j, w) ∷ d) = if j == k then (k, v) ∷ d else (j, w) ∷ put k v d

  -- `delete d[k]`
  abbrev pub drop_key : String → List (String × V) → List (String × V)
  drop_key k [] = []
  drop_key k ((j, w) ∷ d) = if j == k then drop_key k d else (j, w) ∷ drop_key k d

  pub find-put :
      (k j : String) (v : V) (d : List (String × V))
      → find j (put k v d) ≡ (if k == j then some v else find j d)
  find-put k j v [] = refl
  find-put k j v ((i, w) ∷ d) = ground (arith, eq_iff k j, eq_iff i k, eq_iff i j, find-put k j v d)

  pub find-drop_key :
      (k j : String) (d : List (String × V))
      → find j (drop_key k d) ≡ (if k == j then none else find j d)
  find-drop_key k j [] = ground arith
  find-drop_key k j ((i, w) ∷ d) =
      ground (arith, eq_iff k j, eq_iff i k, eq_iff i j, find-drop_key k j d)
