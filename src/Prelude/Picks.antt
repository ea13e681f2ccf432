-- ===== src/Prelude/Picks.antt =====
-- Taking an item out of a list by its index: what a scheduler does with the tasks that run.
use Prim.Native.Nat.{ℕ, zero, suc, ◌+◌}
use mathlib.Core.Path.{◌≡◌}
use mathlib.Core.Logic.{◌↔◌, ◌⊎◌, inl, inr}
use mathlib.Core.Option.{Option, none, some}
use mathlib.Core.List.{List, [], ◌∷◌}
use native.Mathlib.Omega.{arith}
use go_template_aerospike.Prelude.Tests.{Option-cases}
use go_template_aerospike.Prelude.Lists.{length, Has, All}

unfoldable pub take_out : {A : Type 0} → ℕ → List A → Option (A × List A)
take_out n [] = none
take_out zero (x ∷ xs) = some (x, xs)
take_out (suc n) (x ∷ xs) = elim (take_out n xs) [
  | none ↦ none
  | some (y, rest) ↦ some (y, x ∷ rest)
]

module _ {A : Type 0} where
  pub take_out-Has :
      (i : ℕ) (xs rest : List A) (t s : A)
      → take_out i xs ≡ some (t, rest)
      → Has s xs ↔ ((t ≡ s) ⊎ Has s rest)
  unfolding take_out
  take_out-Has i [] rest t s h = ground arith
  take_out-Has zero (x ∷ xs) rest t s h = ground arith
  take_out-Has (suc i) (x ∷ xs) rest t s h = elim (Option-cases (take_out i xs)) [
    | inl p ↦ absurd (ground arith)
    | inr ((y, r), p) ↦ ground (arith, take_out-Has i xs r y s p)
  ]

  pub take_out-length :
      (i : ℕ) (xs rest : List A) (t : A)
      → take_out i xs ≡ some (t, rest)
      → length xs ≡ length rest + 1
  unfolding take_out
  take_out-length i [] rest t h = ground arith
  take_out-length zero (x ∷ xs) rest t h = ground arith
  take_out-length (suc i) (x ∷ xs) rest t h = elim (Option-cases (take_out i xs)) [
    | inl p ↦ absurd (ground arith)
    | inr ((y, r), p) ↦ ground (arith, take_out-length i xs r y p)
  ]

  pub take_out-All :
      (P : A → Type 0) (i : ℕ) (xs rest : List A) (t : A)
      → take_out i xs ≡ some (t, rest)
      → All P xs
      → P t × All P rest
  unfolding take_out
  take_out-All P i [] rest t h all = absurd (ground arith)
  take_out-All P zero (x ∷ xs) rest t h (px, all) =
      let same : x ≡ t = cc in let rests : xs ≡ rest = cc in (rw (← same) px, rw (← rests) all)
  take_out-All P (suc i) (x ∷ xs) rest t h (px, all) = elim (Option-cases (take_out i xs)) [
    | inl p ↦ absurd (ground arith)
    | inr ((y, r), p) ↦
        let (py, pr) = take_out-All P i xs r y p all in
        let same : y ≡ t = ground arith in
        let rests : x ∷ r ≡ rest = ground arith in (rw (← same) py, rw (← rests) (px, pr))
  ]
