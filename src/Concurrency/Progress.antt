-- ===== src/Concurrency/Progress.antt =====
-- The pool never waits for ever with a limit of 1 or more, and every run is short
-- (internal/service/util/concurrency.go).
use go_template_aerospike.Prelude.{
  ℕ, ◌+◌, ◌*◌, ◌≤◌, Option, none, some, List, [], ◌∷◌, ◌≡◌, refl, arith, length, inl, inr, ◌⊎◌,
  length-append, Option-cases, take_out, take_out-length,
}
use go_template_aerospike.Concurrency.{
  Pool, Move, start, finish, start_task, finish_task, step, run_moves, new_pool, result_of,
  run_all_with_limit,
}
use go_template_aerospike.Concurrency.Invariant.{start-cases, finish-cases}

module _ {Error : Type 0} where
  -- The moves that are left: two for a task that waits, one for a task that runs.
  unfoldable pub moves_left : Pool Error → ℕ
  moves_left p = 2 * length p.waiting + length p.running

  step-moves_left :
      (limit : Option ℕ) (m : Move) (p p' : Pool Error)
      → step limit m p ≡ some p'
      → moves_left p ≡ moves_left p' + 1
  unfolding step moves_left
  step-moves_left limit start p p' h =
      let (t, ts, (w, _, same)) = start-cases limit p.waiting p p' h in
      rw same (rw w (omega (arith, length-append p.running (t ∷ []))))
  step-moves_left limit (finish i) p p' h =
      let (t, rest, (out, same)) = finish-cases limit i p p' h in
      rw same (omega (arith, take_out-length i p.running rest t out))

  run_moves-moves_left :
      (limit : Option ℕ) (ms : List Move) (p p' : Pool Error)
      → run_moves limit ms p ≡ some p'
      → moves_left p ≡ moves_left p' + length ms
  unfolding run_moves
  run_moves-moves_left limit [] p p' h = ground arith
  run_moves-moves_left limit (m ∷ ms) p p' h = elim (Option-cases (step limit m p)) [
    | inl stuck ↦ absurd (ground arith)
    | inr (q, goes) ↦ omega (
      arith,
      step-moves_left limit m p q goes,
      run_moves-moves_left limit ms q p' (rw (goes, run_moves) at h),
    )
  ]

  -- Some move is possible.
  abbrev pub CanMove : Option ℕ → Pool Error → Type 0
  CanMove limit p = (m : Move) × ((p' : Pool Error) × (step limit m p ≡ some p'))

  progress_at :
      (limit : ℕ) (w x rs : List (Option Error)) (c : Option Error)
      → 1 ≤ limit
      → ((r : Option Error) × (result_of
              (record { waiting = w; running = x; ended = rs; err_ch = c })
            ≡ some r))
        ⊎ CanMove (some limit) (record { waiting = w; running = x; ended = rs; err_ch = c })
  unfolding step start_task finish_task take_out result_of
  progress_at limit [] [] rs c h = inl (c, refl)
  progress_at limit w (t ∷ x) rs c h = inr (finish 0, (_, refl))
  progress_at limit (t ∷ w) [] rs c h =
      inr (start, (record { waiting = w; running = t ∷ []; ended = rs; err_ch = c }, ground arith))

-- With a limit of 1 or more, `RunAllWithLimit` never waits for ever: wherever a run of it stands, it
-- has its result, or another move is possible, and it has made at most two moves for each task.
pub run_all_with_limit_progress :
    {Error : Type 0} (tasks : List (Option Error)) (limit : ℕ) (moves : List Move) (p : Pool Error)
    → 1 ≤ limit
    → run_all_with_limit tasks limit moves ≡ some p
    → (((r : Option Error) × (result_of p ≡ some r)) ⊎ CanMove (some limit) p)
      × (length moves ≤ 2 * length tasks)
unfolding run_all_with_limit
run_all_with_limit_progress tasks limit moves p h k =
    let spent = run_moves-moves_left (some limit) moves (new_pool tasks) p k in
    (
      progress_at limit p.waiting p.running p.ended p.err_ch h,
      unfold moves_left new_pool in omega (arith, spent),
    )

-- With a limit of 0 and at least one task, `RunAllWithLimit` waits for ever at its first send: no move
-- is ever possible, and there is no result.
pub run_all_with_limit_zero :
    {Error : Type 0} (t : Option Error) (tasks : List (Option Error)) (m : Move) (moves : List Move)
    → (run_all_with_limit (t ∷ tasks) 0 (m ∷ moves) ≡ none)
      × (result_of (new_pool (t ∷ tasks)) ≡ none)
unfolding run_all_with_limit run_moves step start_task finish_task take_out new_pool result_of
run_all_with_limit_zero t tasks start moves = (refl, refl)
run_all_with_limit_zero t tasks (finish i) moves = (refl, refl)
