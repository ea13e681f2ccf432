-- ===== src/Prelude/Maps.antt =====
-- A Go map with int32 keys as an association list: at most one entry for a key is ever visible.
use mathlib.Core.Path.{◌≡◌}
use mathlib.Core.Option.{Option, none, some}
use mathlib.Core.List.{List, [], ◌∷◌}
use native.Mathlib.Omega.{arith}
use go_template_aerospike.Prelude.Tests.{if◌then◌else◌}
use go_template_aerospike.Prelude.Int.{ℤ, eqb_ℤ, eqb_ℤ_iff, eqb_ℤ_refl}

abbrev pub Map : Type 0 → Type 0
Map V = List (ℤ × V)

module _ {V : Type 0} where
  unfoldable pub lookup : ℤ → Map V → Option V
  lookup k [] = none
  lookup k ((j, v) ∷ m) = let rest = lookup k m in if eqb_ℤ j k then some v else rest

  -- delete(m, k)
  unfoldable pub delete : ℤ → Map V → Map V
  delete k [] = []
  delete k ((j, v) ∷ m) = let rest = delete k m in if eqb_ℤ j k then rest else (j, v) ∷ rest

  -- m[k] = v
  unfoldable pub insert : ℤ → V → Map V → Map V
  insert k v m = (k, v) ∷ delete k m

  unfoldable pub keys : Map V → List ℤ
  keys [] = []
  keys ((j, v) ∷ m) = j ∷ keys m

  pub lookup-delete :
      (k j : ℤ) (m : Map V) → lookup j (delete k m) ≡ (if eqb_ℤ k j then none else lookup j m)
  unfolding lookup delete
  lookup-delete k j [] = ground arith
  lookup-delete k j ((i, v) ∷ m) =
      ground (arith, lookup-delete k j m, eqb_ℤ_iff i k, eqb_ℤ_iff i j, eqb_ℤ_iff k j)

  pub lookup-insert :
      (k j : ℤ) (v : V) (m : Map V)
      → lookup j (insert k v m) ≡ (if eqb_ℤ k j then some v else lookup j m)
  unfolding insert lookup
  lookup-insert k j v m = ground (arith, lookup-delete k j m)

  -- No key stands twice.
  abbrev pub IsMap : Map V → Type 0
  IsMap [] = Unit
  IsMap ((j, v) ∷ m) = (lookup j m ≡ none) × IsMap m

  pub delete-IsMap : (k : ℤ) (m : Map V) → IsMap m → IsMap (delete k m)
  unfolding delete
  delete-IsMap k [] h = tt
  delete-IsMap k ((j, v) ∷ m) (free, h) =
      ground (arith, delete-IsMap k m h, lookup-delete k j m, eqb_ℤ_iff j k)

  pub insert-IsMap : (k : ℤ) (v : V) (m : Map V) → IsMap m → IsMap (insert k v m)
  unfolding insert
  insert-IsMap k v m h = ground (arith, delete-IsMap k m h, lookup-delete k k m, eqb_ℤ_refl k)

pub ruleset map_laws = (lookup-insert, lookup-delete)
