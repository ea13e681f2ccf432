-- ===== src/Prelude/Splits.antt =====
-- Splitting a text at a separator, and joining.
use Prim.Native.Nat.{ℕ}
use mathlib.Core.Path.{◌≡◌, refl, ap, ◌∙◌}
use mathlib.Core.Logic.{◌≢◌, inl, inr}
use mathlib.Core.List.{List, [], ◌∷◌, ◌++◌}
use native.Mathlib.Omega.{arith}
use go_template_aerospike.Prelude.Tests.{◌==◌, if◌then◌else◌, Bool-cases}
use go_template_aerospike.Prelude.Lists.{All}
use go_template_aerospike.Prelude.Text.{Bytes}
use go_template_aerospike.Prelude.RoundTrip.{Lacks}

-- `strings.Split` and `strings.Join` with a separator of one byte.
abbrev pub onto_first : ℕ → List Bytes → List Bytes
onto_first x [] = (x ∷ []) ∷ []
onto_first x (p ∷ ps) = (x ∷ p) ∷ ps

unfoldable pub split : ℕ → Bytes → List Bytes
split c [] = [] ∷ []
split c (x ∷ s) = let rest = split c s in if x == c then [] ∷ rest else onto_first x rest

abbrev pub join_after : ℕ → Bytes → List Bytes → Bytes
join_after c p [] = p
join_after c p (q ∷ qs) = p ++ c ∷ join_after c q qs

abbrev pub join : ℕ → List Bytes → Bytes
join c [] = []
join c (p ∷ ps) = join_after c p ps

pub split-ne-nil : (c : ℕ) (s : Bytes) → (p : Bytes) × ((ps : List Bytes) × (split c s ≡ p ∷ ps))
unfolding split
split-ne-nil c [] = ([], ([], refl))
split-ne-nil c (x ∷ s) =
    let (p, (ps, e)) = split-ne-nil c s in
    elim (Bool-cases (x == c)) [
      | inl hit ↦ ([], (split c s, ground arith))
      | inr miss ↦ (x ∷ p, (ps, ground arith))
    ]

-- A text without the separator has one part.
pub split-Lacks : (c : ℕ) (s : Bytes) → Lacks c s → split c s ≡ s ∷ []
unfolding split
split-Lacks c [] h = refl
split-Lacks c (x ∷ s) (h, hs) = ground (arith, split-Lacks c s hs)

-- Splitting what stands before a separator and after it.
pub split-append : (c : ℕ) (s t : Bytes) → split c (s ++ c ∷ t) ≡ split c s ++ split c t
unfolding split
split-append c [] t = ground arith
split-append c (x ∷ s) t =
    let (p, (ps, e)) = split-ne-nil c s in
    let rest = split-append c s t in
    elim (Bool-cases (x == c)) [
      | inl hit ↦ rw hit (ap (λ l. [] ∷ l) rest)
      | inr miss ↦ rw miss (rw rest (rw e refl))
    ]

onto_first-join :
    (c x : ℕ) (p : Bytes) (ps : List Bytes) → join c (onto_first x (p ∷ ps)) ≡ x ∷ join c (p ∷ ps)
onto_first-join c x p [] = refl
onto_first-join c x p (q ∷ qs) = refl

-- `Join` undoes `Split`.
pub join-split : (c : ℕ) (s : Bytes) → join c (split c s) ≡ s
unfolding split
join-split c [] = refl
join-split c (x ∷ s) =
    let (p, (ps, e)) = split-ne-nil c s in
    let rest = join-split c s in
    elim (Bool-cases (x == c)) [
      | inl hit ↦ rw hit (rw e (ground (arith, rw e at rest)))
      | inr miss ↦ rw miss (rw e (onto_first-join c x p ps ∙ ap (λ l. x ∷ l) (rw e at rest)))
    ]

split-join_after :
    (c : ℕ) (p : Bytes) (ps : List Bytes)
    → Lacks c p
    → All (Lacks c) ps
    → split c (join_after c p ps) ≡ p ∷ ps
split-join_after c p [] h hs = split-Lacks c p h
split-join_after c p (q ∷ qs) h (hq, hqs) =
    split-append c p (join_after c q qs)
    ∙ rw (split-Lacks c p h) (ap (λ l. p ∷ l) (split-join_after c q qs hq hqs))

-- `Split` undoes `Join` on parts without the separator.
pub split-join : (c : ℕ) (ps : List Bytes) → ps ≢ [] → All (Lacks c) ps → split c (join c ps) ≡ ps
split-join c [] h hs = absurd (h refl)
split-join c (p ∷ ps) h (hp, hs) = split-join_after c p ps hp hs
