-- ===== src/Prelude/Map.antt =====
-- Go's `map[string]V` as a list of entries. The order in which Go ranges over a map is not fixed,
-- and no theorem depends on it.
use spinloop.Prelude.Tests.{if◌then◌else◌, is_some}
use spinloop.Prelude.Lists.{length}
use Prim.Native.Nat.{◌+◌, ◌≤◌, ◌<◌}
use Prim.Native.String.{String}
use text.Mathlib.Text.{◌==◌}
use text.Mathlib.TextEquality.{eq_iff}
use mathlib.Core.Path.{◌≡◌, refl, ap}
use mathlib.Core.Bool.{Bool, true}
use mathlib.Core.Option.{Option, none, some}
use mathlib.Core.List.{List, [], ◌∷◌}
use native.Mathlib.Omega.{arith}

abbrev pub Map {ℓ} : Type ℓ → Type ℓ
Map V = List (String × V)

module _ {ℓ} {V : Type ℓ} where
  -- v, ok := m[k]
  unfoldable pub lookup : String → Map V → Option V
  lookup k [] = none
  lookup k ((j, v) ∷ m) = if j == k then some v else lookup k m

  -- delete(m, k)
  unfoldable pub delete : String → Map V → Map V
  delete k [] = []
  delete k ((j, v) ∷ m) = let rest = delete k m in if j == k then rest else (j, v) ∷ rest

  -- m[k] = v
  unfoldable pub put : String → V → Map V → Map V
  put k v m = (k, v) ∷ delete k m

  -- _, ok := m[k]
  abbrev pub has : String → Map V → Bool
  has k m = is_some (lookup k m)

  abbrev pub values : Map V → List V
  values [] = []
  values ((k, v) ∷ m) = v ∷ values m

  pub lookup-delete :
      (k j : String) (m : Map V) → lookup j (delete k m) ≡ (if k == j then none else lookup j m)
  unfolding lookup delete
  lookup-delete k j [] = ground arith
  lookup-delete k j ((i, v) ∷ m) =
      ground (arith, lookup-delete k j m, eq_iff i k, eq_iff i j, eq_iff k j)

  pub lookup-put :
      (k j : String) (v : V) (m : Map V)
      → lookup j (put k v m) ≡ (if k == j then some v else lookup j m)
  unfolding lookup put
  lookup-put k j v m = ground (arith, lookup-delete k j m)

  pub length-delete-le : (k : String) (m : Map V) → length (delete k m) ≤ length m
  unfolding delete
  length-delete-le k [] = omega arith
  length-delete-le k ((j, v) ∷ m) = ground (arith, length-delete-le k m)

  pub length-delete-lt : (k : String) (m : Map V) → has k m ≡ true → length (delete k m) < length m
  unfolding delete lookup
  length-delete-lt k [] h = ground arith
  length-delete-lt k ((j, v) ∷ m) h = ground (arith, length-delete-le k m, length-delete-lt k m)

  pub length-put-le : (k : String) (v : V) (m : Map V) → length (put k v m) ≤ length m + 1
  unfolding put
  length-put-le k v m = omega (arith, length-delete-le k m)

  pub delete_absent : (k : String) (m : Map V) → lookup k m ≡ none → delete k m ≡ m
  unfolding delete lookup
  delete_absent k [] h = refl
  delete_absent k ((j, v) ∷ m) h = ground (arith, delete_absent k m)

  -- Deletes every entry whose key fails the test.
  unfoldable pub retain : (String → Bool) → Map V → Map V
  retain p [] = []
  retain p ((j, v) ∷ m) = let rest = retain p m in if p j then (j, v) ∷ rest else rest

  pub lookup-retain :
      (p : String → Bool) (k : String) (m : Map V)
      → lookup k (retain p m) ≡ (if p k then lookup k m else none)
  unfolding lookup retain
  lookup-retain p k [] = ground arith
  lookup-retain p k ((j, v) ∷ m) =
      ground (arith, lookup-retain p k m, eq_iff j k, λ (e : j ≡ k). ap p e)

module _ {ℓ κ} {V : Type ℓ} {W : Type κ} (f : V → W) where
  -- Writes every value anew.
  unfoldable pub map_values : Map V → Map W
  map_values [] = []
  map_values ((j, v) ∷ m) = (j, f v) ∷ map_values m

  pub lookup-map_values :
      (k : String) (m : Map V)
      → lookup k (map_values m) ≡ elim (lookup k m) [ none ↦ none | some v ↦ some (f v) ]
  unfolding lookup map_values
  lookup-map_values k [] = refl
  lookup-map_values k ((j, v) ∷ m) = ground (arith, lookup-map_values k m)
