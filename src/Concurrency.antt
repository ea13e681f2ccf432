-- ===== src/Concurrency.antt =====
-- `RunAll` and `RunAllWithLimit` (internal/service/util/concurrency.go) as steps of a pool. A task is
-- the error that its function returns; the scheduler chooses the moves.
pub mod Invariant
pub mod Laws
pub mod Progress
use go_template_aerospike.Prelude.{
  ℕ, Bool, true, Option, none, some, List, [], ◌∷◌, ◌++◌, length, if◌then◌else◌, ltb, take_out,
}

-- The tasks that the loop has not reached, those that run (each holds a slot of `sem` where there is a
-- limit), the results in the order in which tasks ended, and the buffer of `errCh`.
pub record Pool (Error : Type 0) : Type 0 where
  pub waiting : List (Option Error)
  pub running : List (Option Error)
  pub ended : List (Option Error)
  pub err_ch : Option Error

-- The loop starts its next task, or a running one ends.
pub data Move : Type 0 where
  start : Move
  finish : ℕ → Move

-- `select { case errCh <- err: cancel() default: }` on a channel of capacity 1; nobody has the context
-- that `cancel` ends.
abbrev pub offer : {Error : Type 0} → Option Error → Option Error → Option Error
offer none ch = ch
offer (some e) none = some e
offer (some e) (some first) = some first

-- `sem <- true` goes on only below the limit.
abbrev pub has_slot : Option ℕ → ℕ → Bool
has_slot none n = true
has_slot (some limit) n = ltb n limit

unfoldable pub start_task :
    {Error : Type 0} → Option ℕ → List (Option Error) → Pool Error → Option (Pool Error)
start_task limit [] p = none
start_task limit (t ∷ ts) p =
    if has_slot limit (length p.running)
    then some (record p { waiting = ts; running = p.running ++ t ∷ [] })
    else none

unfoldable pub finish_task :
    {Error : Type 0}
    → Option (Option Error × List (Option Error))
    → Pool Error
    → Option (Pool Error)
finish_task none p = none
finish_task (some (t, rest)) p =
    some (record p { running = rest; ended = p.ended ++ t ∷ []; err_ch = offer t p.err_ch })

-- `none` is a move that is not possible.
unfoldable pub step : {Error : Type 0} → Option ℕ → Move → Pool Error → Option (Pool Error)
unfolding start_task finish_task take_out
step limit start p = start_task limit p.waiting p
step limit (finish i) p = finish_task (take_out i p.running) p

unfoldable pub run_moves :
    {Error : Type 0} → Option ℕ → List Move → Pool Error → Option (Pool Error)
run_moves limit [] p = some p
run_moves limit (m ∷ ms) p = elim (step limit m p) [ none ↦ none | some p' ↦ run_moves limit ms p' ]

unfoldable pub new_pool : {Error : Type 0} → List (Option Error) → Pool Error
new_pool tasks = record { waiting = tasks; running = []; ended = []; err_ch = none }

-- `wg.Wait()` returns when no task waits or runs; the result is then what `errCh` holds.
unfoldable pub result_of : {Error : Type 0} → Pool Error → Option (Option Error)
result_of p = elim p.waiting [
  | [] ↦ elim p.running [ [] ↦ some p.err_ch | t ∷ ts ↦ none ]
  | t ∷ ts ↦ none
]

unfoldable pub run_all : {Error : Type 0} → List (Option Error) → List Move → Option (Pool Error)
unfolding run_moves new_pool
run_all tasks moves = run_moves none moves (new_pool tasks)

unfoldable pub run_all_with_limit :
    {Error : Type 0} → List (Option Error) → ℕ → List Move → Option (Pool Error)
unfolding run_moves new_pool
run_all_with_limit tasks limit moves = run_moves (some limit) moves (new_pool tasks)
