-- ===== src/Tests/Sorting.antt =====
-- A sort that does what `sort.Slice` is documented to do.
use mathlib.Core.List.{Perm}
use mathlib.Core.List.Perm
use go_template_aerospike.Prelude.{
  Bool, true, false, List, [], ◌∷◌, ◌≡◌, arith, if◌then◌else◌, All, Bool-cases, inl, inr,
}
use go_template_aerospike.History.Reading.{IsWeakOrder, IsSorted, IsSort}

module _ {A : Type 0} (less : A → A → Bool) where
  unfoldable pub place : A → List A → List A
  place x [] = x ∷ []
  place x (y ∷ ys) = let rest = place x ys in if less x y then x ∷ y ∷ ys else y ∷ rest

  unfoldable pub insertion_sort : List A → List A
  unfolding place
  insertion_sort [] = []
  insertion_sort (x ∷ xs) = place x (insertion_sort xs)

  place-Perm : (x : A) (ys : List A) → Perm (place x ys) (x ∷ ys)
  unfolding place
  place-Perm x [] = Perm.refl (x ∷ [])
  place-Perm x (y ∷ ys) = elim (Bool-cases (less x y)) [
    | inl first ↦ rw first (Perm.refl (x ∷ y ∷ ys))
    | inr later ↦ rw later (Perm.trans (Perm.cons y (place-Perm x ys)) (Perm.swap x y ys))
  ]

  insertion_sort-Perm : (xs : List A) → Perm (insertion_sort xs) xs
  unfolding insertion_sort
  insertion_sort-Perm [] = Perm.refl []
  insertion_sort-Perm (x ∷ xs) =
      Perm.trans (place-Perm x (insertion_sort xs)) (Perm.cons x (insertion_sort-Perm xs))

  module _ (order : IsWeakOrder less) where
    none_less :
        (x y : A) (ys : List A)
        → less x y ≡ true
        → All (λ z. less z y ≡ false) ys
        → All (λ z. less z x ≡ false) ys
    none_less x y [] h k = tt
    none_less x y (z ∷ ys) h (hz, k) = (
      elim (Bool-cases (less z x)) [
        | inl lower ↦ ground (arith, order.cotransitive z x y lower, order.asymmetric x y h)
        | inr fine ↦ fine
      ],
      none_less x y ys h k,
    )

    All-place : (P : A → Type 0) (x : A) (ys : List A) → P x → All P ys → All P (place x ys)
    unfolding place
    All-place P x [] h k = (h, tt)
    All-place P x (y ∷ ys) h (hy, k) = elim (Bool-cases (less x y)) [
      | inl first ↦ rw first (h, (hy, k))
      | inr later ↦ rw later (hy, All-place P x ys h k)
    ]

    place-IsSorted : (x : A) (ys : List A) → IsSorted less ys → IsSorted less (place x ys)
    unfolding place
    place-IsSorted x [] h = (tt, tt)
    place-IsSorted x (y ∷ ys) (hy, h) = elim (Bool-cases (less x y)) [
      | inl first ↦ rw first ((order.asymmetric x y first, none_less x y ys first hy), (hy, h))
      | inr later ↦
          rw later (All-place (λ z. less z y ≡ false) x ys later hy, place-IsSorted x ys h)
    ]

    insertion_sort-IsSorted : (xs : List A) → IsSorted less (insertion_sort xs)
    unfolding insertion_sort
    insertion_sort-IsSorted [] = tt
    insertion_sort-IsSorted (x ∷ xs) =
        place-IsSorted x (insertion_sort xs) (insertion_sort-IsSorted xs)

pub insertion_sort-IsSort : {A : Type 0} → IsSort {A = A} insertion_sort
insertion_sort-IsSort = record {
  permutes = insertion_sort-Perm;
  sorts = λ less xs order. insertion_sort-IsSorted less order xs;
}
