-- ===== src/Tests/Helpers.antt =====
-- The task pools.
use go_template_aerospike.Prelude.{
  ◌*◌, ◌≤◌, Bytes, text, Option, none, some, List, [], ◌∷◌, ◌≡◌, refl, arith, length, ◌⊎◌,
}
use go_template_aerospike.Concurrency.{Pool, Move, start, finish, result_of, run_all_with_limit}
use go_template_aerospike.Concurrency.Progress.{CanMove, run_all_with_limit_progress}

abbrev tasks : List (Option Bytes)
tasks = none ∷ some (text "late") ∷ some (text "early") ∷ []

-- Three tasks; the third ends first.
abbrev run : List Move
run = start ∷ start ∷ start ∷ finish 2 ∷ finish 1 ∷ finish 0 ∷ []

abbrev done_pool : Pool Bytes
done_pool = record {
  waiting = [];
  running = [];
  ended = some (text "early") ∷ some (text "late") ∷ none ∷ [];
  err_ch = some (text "early");
}

progress_example :
    (((r : Option Bytes) × (result_of done_pool ≡ some r)) ⊎ CanMove (some 3) done_pool)
    × (length run ≤ 2 * length tasks)
unfolding run_all_with_limit go_template_aerospike.Concurrency.step
progress_example = run_all_with_limit_progress tasks 3 run done_pool (omega arith) refl
