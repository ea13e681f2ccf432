-- ===== src/Concurrency/Laws.antt =====
-- The limit, and the error that is kept (internal/service/util/concurrency.go).
use go_template_aerospike.Prelude.{
  ℕ, ◌≤◌, Option, none, some, List, [], ◌∷◌, ◌++◌, ◌≡◌, ◌↔◌, refl, sym, ◌∙◌, arith, length, All,
  Has, inl, inr, append-nil,
}
use go_template_aerospike.Concurrency.{Pool, Move, new_pool, result_of, run_all, run_all_with_limit}
use go_template_aerospike.Concurrency.Invariant.{
  first_error, everywhere, run_moves-IsPool, new_pool-IsPool,
}

module _ {Error : Type 0} where
  first_error-none : (rs : List (Option Error)) → (first_error rs ≡ none) ↔ All (λ r. r ≡ none) rs
  first_error-none [] = (λ _. tt, λ _. refl)
  first_error-none (none ∷ rs) = ground (arith, first_error-none rs)
  first_error-none (some e ∷ rs) = ground arith

  All-Has : (rs : List (Option Error)) → All (λ r. r ≡ none) rs ↔ ((e : Error) → ¬ Has (some e) rs)
  All-Has [] = (λ _ e z. z, λ _. tt)
  All-Has (none ∷ rs) = (
    λ h e z. elim z [ inl p ↦ ground arith | inr q ↦ (All-Has rs).0 h.1 e q ],
    λ h. (refl, (All-Has rs).1 (λ e z. h e (inr z))),
  )
  All-Has (some d ∷ rs) = (λ h. absurd (ground arith), λ h. absurd (h d (inl refl)))

  first_error-Has :
      (rs : List (Option Error)) (e : Error) → first_error rs ≡ some e → Has (some e) rs
  first_error-Has [] e h = ground arith
  first_error-Has (none ∷ rs) e h = inr (first_error-Has rs e h)
  first_error-Has (some d ∷ rs) e h = inl h

-- Wherever a run of `RunAllWithLimit` stands, at most `limit` tasks run at once, and no task is lost,
-- added or changed: those that wait, run and have ended are the tasks that were given.
pub run_all_with_limit-within :
    {Error : Type 0} (tasks : List (Option Error)) (limit : ℕ) (moves : List Move) (p : Pool Error)
    → run_all_with_limit tasks limit moves ≡ some p
    → (length p.running ≤ limit)
      × (length tasks ≡ length (everywhere p))
      × ((t : Option Error) → Has t tasks ↔ Has t (everywhere p))
unfolding run_all_with_limit
run_all_with_limit-within tasks limit moves p h =
    let (same, number, within, first) =
      run_moves-IsPool (some limit) tasks moves (new_pool tasks) p
        (new_pool-IsPool (some limit) tasks) h in
    (within, number, same)

result-ended :
    {Error : Type 0} (w x rs : List (Option Error)) (c r : Option Error)
    → result_of (record { waiting = w; running = x; ended = rs; err_ch = c }) ≡ some r
    → (c ≡ r) × (rs ++ (x ++ w) ≡ rs)
unfolding result_of
result-ended [] [] rs c r h = (ground arith, append-nil rs)
result-ended [] (y ∷ x) rs c r h = ground arith
result-ended (y ∷ w) x rs c r h = ground arith

-- What a result says of the tasks: nil, that none of them failed; an error, that one of them failed
-- with it.
abbrev pub IsResult : {Error : Type 0} → Option Error → List (Option Error) → Type 0
IsResult none tasks = All (λ t. t ≡ none) tasks
IsResult (some e) tasks = Has (some e) tasks

first-IsResult :
    {Error : Type 0} (r : Option Error) (ended tasks : List (Option Error))
    → ((t : Option Error) → Has t tasks ↔ Has t ended)
    → first_error ended ≡ r
    → IsResult r tasks
first-IsResult none ended tasks same h =
    (All-Has tasks).1
      λ e q. (All-Has ended).0 ((first_error-none ended).0 h) e ((same (some e)).0 q)
first-IsResult (some e) ended tasks same h = (same (some e)).1 (first_error-Has ended e h)

-- Whatever the order in which tasks start and end, a nil result of `RunAll` says that no task failed, and
-- an error that it returns is the error of one of the tasks.
pub run_all-IsResult :
    {Error : Type 0} (tasks : List (Option Error)) (moves : List Move) (p : Pool Error)
    (r : Option Error)
    → run_all tasks moves ≡ some p
    → result_of p ≡ some r
    → IsResult r tasks
unfolding run_all
run_all-IsResult tasks moves p r h k =
    let (same, _, _, first) =
      run_moves-IsPool none tasks moves (new_pool tasks) p (new_pool-IsPool none tasks) h in
    let (kept, all_ended) = result-ended p.waiting p.running p.ended p.err_ch r k in
    first-IsResult r p.ended tasks (rw all_ended at same) (sym first ∙ kept)
