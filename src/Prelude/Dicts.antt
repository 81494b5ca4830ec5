-- ===== src/Prelude/Dicts.antt =====
-- Python's `dict` as an association list in the order of insertion.
use mathlib.Core.List.{List, [], ◌∷◌, map}
use mathlib.Core.Option.{Option, none, some}
use mathlib.Core.Path.{◌≡◌, refl}
use native.Mathlib.Omega.{arith}
use early_warning_system.Prelude.Tests.{Eq, ◌==◌, eq_iff, if◌then◌else◌}

module _ {ℓ} {K V : Type ℓ} ⦃e : Eq K⦄ where
  -- `d.get(k)`
  abbrev pub get : K → List (K × V) → Option V
  get k [] = none
  get k ((j, v) ∷ rest) = let later = get k rest in if j == k then some v else later

  -- `d[k] = v`
  abbrev pub put : K → V → List (K × V) → List (K × V)
  put k v [] = (k, v) ∷ []
  put k v ((j, w) ∷ rest) =
      let later = put k v rest in if j == k then (j, v) ∷ rest else (j, w) ∷ later

  -- `d.pop(k, None)`
  abbrev pub remove : K → List (K × V) → List (K × V)
  remove k [] = []
  remove k ((j, w) ∷ rest) = let later = remove k rest in if j == k then later else (j, w) ∷ later

  -- `{**d, **e}`
  abbrev pub merge : List (K × V) → List (K × V) → List (K × V)
  merge d [] = d
  merge d ((k, v) ∷ rest) = merge (put k v d) rest

  abbrev pub keys : List (K × V) → List K
  keys = map (λ p. p.0)

  pub get-put :
      (k j : K) (v : V) (d : List (K × V))
      → get j (put k v d) ≡ (if k == j then some v else get j d)
  get-put k j v [] = refl
  get-put k j v ((i, w) ∷ d) = ground (arith, eq_iff k j, eq_iff i k, eq_iff i j, get-put k j v d)

  pub get-remove :
      (k j : K) (d : List (K × V)) → get j (remove k d) ≡ (if k == j then none else get j d)
  get-remove k j [] = ground arith
  get-remove k j ((i, w) ∷ d) = ground (arith, eq_iff k j, eq_iff i k, eq_iff i j, get-remove k j d)
