-- ===== src/Arrays/Laws.antt =====
-- What the helpers on slices promise (internal/service/util/array.go): `Unique`, `Map` with `onlyOne`,
-- `Remove`, `Replace` and `Count`, `Min` and `Max`.
use go_template_aerospike.Prelude.{
  Bytes, Option-cases, keep, if◌then◌else◌, ℕ, suc, Bool, true, false, List, [], ◌∷◌, ◌++◌, ◌≡◌,
  ◌≢◌, refl, sym, ap, ◌∙◌, arith, Bool-cases, inl, inr, ◌⊎◌, ◌↔◌, Has, append-nil, append_assoc,
}
use go_template_aerospike.Arrays.{
  Compile, matching, search, check, is_include, replace, count_from, count, append_new, unique,
  should_remove, remove, map_from, array_map,
}

-- The test tells equal values from different ones.
abbrev pub IsEquality : {A : Type 0} → (A → A → Bool) → Type 0
IsEquality {A} same = (a b : A) → (same a b ≡ true) ↔ (a ≡ b)

-- No value stands twice.
abbrev pub IsUnique : {A : Type 0} → List A → Type 0
IsUnique [] = Unit
IsUnique (x ∷ xs) = ¬ Has x xs × IsUnique xs

module _ {A : Type 0} (same : A → A → Bool) (eq : IsEquality same) where
  pub is_include-Has : (arr : List A) (x : A) → (is_include same arr x ≡ true) ↔ Has x arr
  unfolding is_include
  is_include-Has [] x = ground arith
  is_include-Has (a ∷ arr) x = ground (arith, is_include-Has arr x, eq a x)

  should_remove-Has : (x : A) (elms : List A) → (should_remove same x elms ≡ true) ↔ Has x elms
  unfolding should_remove
  should_remove-Has x [] = ground arith
  should_remove-Has x (e ∷ elms) =
      let flip : (e ≡ x) ↔ (x ≡ e) = (λ p. sym p, λ p. sym p) in
      ground (arith, should_remove-Has x elms, eq x e, flip)

  Has-append : (x : A) (xs ys : List A) → Has x (xs ++ ys) ↔ (Has x xs ⊎ Has x ys)
  Has-append x [] ys = ground arith
  Has-append x (a ∷ xs) ys = ground (arith, Has-append x xs ys)

  IsUnique-snoc : (xs : List A) (x : A) → IsUnique xs → ¬ Has x xs → IsUnique (xs ++ x ∷ [])
  IsUnique-snoc [] x h k = (λ z. z, tt)
  IsUnique-snoc (a ∷ xs) x (ha, h) k =
      let later : ¬ Has a (xs ++ x ∷ []) = λ z. elim ((Has-append a xs (x ∷ [])).0 z) [
        | inl p ↦ ha p
        | inr (inl p) ↦ k (inl (sym p))
        | inr (inr p) ↦ p
      ] in
      (later, IsUnique-snoc xs x h (λ z. k (inr z)))

  append_new-IsUnique : (res arr : List A) → IsUnique res → IsUnique (append_new same res arr)
  unfolding append_new
  append_new-IsUnique res [] h = h
  append_new-IsUnique res (x ∷ arr) h = elim (Bool-cases (is_include same res x)) [
    | inl old ↦ rw old (append_new-IsUnique res arr h)
    | inr new ↦ rw new (
        append_new-IsUnique (res ++ x ∷ []) arr
          (IsUnique-snoc res x h (λ z. ground (arith, is_include-Has res x))))
  ]

  append_new-Has :
      (res arr : List A) (x : A) → Has x (append_new same res arr) ↔ (Has x res ⊎ Has x arr)
  unfolding append_new
  append_new-Has res [] x = ground arith
  append_new-Has res (a ∷ arr) x = elim (Bool-cases (is_include same res a)) [
    | inl old ↦ rw old (
        let there = (is_include-Has res a).0 old in
        let move : (a ≡ x) → Has x res = λ p. rw p at there in
        ground (arith, append_new-Has res arr x, move))
    | inr new ↦
        rw new (ground (arith, append_new-Has (res ++ a ∷ []) arr x, Has-append x res (a ∷ [])))
  ]

-- `Unique` keeps every value of the slice, adds none, and leaves none twice.
pub unique-IsUnique :
    {A : Type 0} (same : A → A → Bool) (arr : List A)
    → IsEquality same
    → IsUnique (unique same arr) × ((x : A) → Has x (unique same arr) ↔ Has x arr)
unfolding unique
unique-IsUnique same arr eq =
    (append_new-IsUnique same eq [] arr tt, λ x. ground (arith, append_new-Has same eq [] arr x))

-- `Remove` keeps exactly the values that are not among the ones to remove.
pub remove-Has :
    {A : Type 0} (same : A → A → Bool) (arr elms : List A) (x : A)
    → IsEquality same
    → Has x (remove same arr elms) ↔ (Has x arr × ¬ Has x elms)
unfolding remove
remove-Has same [] elms x eq = ground arith
remove-Has {A = A} same (a ∷ arr) elms x eq =
    let rest = remove-Has same arr elms x eq in
    elim (Bool-cases (should_remove same a elms)) [
      | inl out ↦
          let there = (should_remove-Has same eq a elms).0 out in
          let move : (a ≡ x) → Has x elms = λ p. rw p at there in
          rw out (ground (arith, rest, move))
      | inr kept ↦
          let absent : ¬ Has a elms = λ z. ground (arith, should_remove-Has same eq a elms) in
          let move : (a ≡ x) → ¬ Has x elms = λ p. rw p at absent in
          rw kept (ground (arith, rest, move))
    ]

abbrev mapped : {A B : Type 0} → (ℕ → A → B) → ℕ → List A → List B
mapped f idx [] = []
mapped f idx (x ∷ arr) = f idx x ∷ mapped f (suc idx) arr

map_from-all :
    {A B : Type 0} (same : B → B → Bool) (f : ℕ → A → B) (arr : List A) (idx : ℕ) (res : List B)
    → map_from same f false idx res arr ≡ res ++ mapped f idx arr
unfolding map_from
map_from-all same f [] idx res = sym (append-nil res)
map_from-all same f (x ∷ arr) idx res =
    map_from-all same f arr (suc idx) (res ++ f idx x ∷ []) ∙ append_assoc res (f idx x ∷ []) _

map_from-once :
    {A B : Type 0} (same : B → B → Bool) (f : ℕ → A → B) (arr : List A) (idx : ℕ) (res : List B)
    → map_from same f true idx res arr ≡ append_new same res (mapped f idx arr)
unfolding map_from append_new
map_from-once same f [] idx res = refl
map_from-once same f (x ∷ arr) idx res = map_from-once same f arr (suc idx) _

-- `Map` with `onlyOne` gives what `Unique` makes of the result of `Map` without it.
pub array_map-unique :
    {A B : Type 0} (same : B → B → Bool) (f : ℕ → A → B) (arr : List A)
    → array_map same arr f true ≡ unique same (array_map same arr f false)
unfolding array_map unique
array_map-unique same f arr =
    map_from-once same f arr 0 [] ∙ ap (append_new same []) (sym (map_from-all same f arr 0 []))

module _ {A : Type 0} (same : A → A → Bool) (eq : IsEquality same) where
  count_from-replace :
      (n : ℕ) (arr : List A) (old new : A)
      → old ≢ new
      → count_from same n (replace same arr old new) old ≡ n
  unfolding count_from replace
  count_from-replace n [] old new h = refl
  count_from-replace n (x ∷ arr) old new h = elim (Bool-cases (same old x)) [
    | inl hit ↦ rw hit (ground (arith, count_from-replace n arr old new h, eq old new))
    | inr miss ↦ rw miss (ground (arith, count_from-replace n arr old new h))
  ]

-- After `Replace` of a value by another, `Count` finds the old one nowhere.
pub count-replace :
    {A : Type 0} (same : A → A → Bool) (arr : List A) (old new : A)
    → IsEquality same
    → old ≢ new
    → count same (replace same arr old new) old ≡ 0
unfolding count
count-replace same arr old new eq h = count_from-replace same eq 0 arr old new h

matching-keep : (r : Bytes → Bool) (ms arr : List Bytes) → matching r ms arr ≡ ms ++ keep r arr
unfolding matching
matching-keep r ms [] = sym (append-nil ms)
matching-keep r ms (x ∷ arr) = elim (Bool-cases (r x)) [
  | inl hit ↦ rw hit (matching-keep r (ms ++ x ∷ []) arr ∙ append_assoc ms (x ∷ []) (keep r arr))
  | inr miss ↦ rw miss (matching-keep r ms arr)
]

keep-test :
    (r : Bytes → Bool) (arr : List Bytes) → keep (λ s. if r s then true else false) arr ≡ keep r arr
keep-test r [] = refl
keep-test r (x ∷ arr) = ground (arith, keep-test r arr)

keep-false : (arr : List Bytes) → keep (λ s. false) arr ≡ []
keep-false [] = refl
keep-false (x ∷ arr) = keep-false arr

-- `Search` returns the items that `Check` accepts, in their order, also for a malformed pattern.
pub search-check :
    (compile : Compile) (arr : List Bytes) (pattern : Bytes)
    → search compile arr pattern ≡ keep (λ s. check compile s pattern) arr
unfolding search check
search-check compile arr pattern = elim (Option-cases (compile pattern)) [
  | inl malformed ↦ rw (search, check, malformed) (sym (keep-false arr))
  | inr (r, compiled) ↦
      rw (search, check, compiled) (matching-keep r [] arr ∙ sym (keep-test r arr))
]
