-- ===== src/Concurrency/Invariant.antt =====
-- What holds of the pool after every move (internal/service/util/concurrency.go).
use go_template_aerospike.Prelude.{
  ℕ, ◌+◌, ◌≤◌, true, Option, none, some, List, [], ◌∷◌, ◌++◌, ◌≡◌, ◌↔◌, refl, sym, ap, ◌∙◌, arith,
  length, Has, inl, inr, ◌⊎◌, length-append, Option-cases, Bool-cases, take_out, take_out-Has,
  take_out-length,
}
use go_template_aerospike.Concurrency.{
  Pool, Move, start, finish, offer, has_slot, start_task, finish_task, step, run_moves, new_pool,
}

-- The first error among results.
abbrev pub first_error : {Error : Type 0} → List (Option Error) → Option Error
first_error [] = none
first_error (none ∷ rs) = first_error rs
first_error (some e ∷ rs) = some e

abbrev pub IsWithin : Option ℕ → ℕ → Type 0
IsWithin none n = Unit
IsWithin (some limit) n = n ≤ limit

IsWithin-suc : (limit : Option ℕ) (n : ℕ) → has_slot limit n ≡ true → IsWithin limit (n + 1)
IsWithin-suc none n h = tt
IsWithin-suc (some limit) n h = ground arith

IsWithin-less : (limit : Option ℕ) (n m : ℕ) → m ≤ n → IsWithin limit n → IsWithin limit m
IsWithin-less none n m h k = tt
IsWithin-less (some limit) n m h k = omega arith

module _ {Error : Type 0} where
  abbrev pub everywhere : Pool Error → List (Option Error)
  everywhere p = p.ended ++ (p.running ++ p.waiting)

  -- What holds of a pool that started with these tasks: none is lost, doubled or changed, as far as
  -- membership and number go; the running ones keep the limit; the channel has the first error.
  abbrev pub IsPool : Option ℕ → List (Option Error) → Pool Error → Type 0
  IsPool limit tasks p =
      ((t : Option Error) → Has t tasks ↔ Has t (everywhere p))
      × (length tasks ≡ length (everywhere p))
      × IsWithin limit (length p.running)
      × (p.err_ch ≡ first_error p.ended)

  Has-append :
      (t : Option Error) (xs ys : List (Option Error)) → Has t (xs ++ ys) ↔ (Has t xs ⊎ Has t ys)
  Has-append t [] ys = ground arith
  Has-append t (x ∷ xs) ys = ground (arith, Has-append t xs ys)

  first_error-append :
      (xs : List (Option Error)) (t : Option Error)
      → first_error (xs ++ t ∷ []) ≡ offer t (first_error xs)
  first_error-append [] none = refl
  first_error-append [] (some e) = refl
  first_error-append (none ∷ xs) t = first_error-append xs t
  first_error-append (some e ∷ xs) none = refl
  first_error-append (some e ∷ xs) (some d) = refl

  Has-everywhere :
      (t : Option Error) (p : Pool Error)
      → Has t (everywhere p) ↔ (Has t p.ended ⊎ (Has t p.running ⊎ Has t p.waiting))
  Has-everywhere t p =
      ground
        (arith, Has-append t p.ended (p.running ++ p.waiting), Has-append t p.running p.waiting)

  length-everywhere :
      (p : Pool Error)
      → length (everywhere p) ≡ length p.ended + (length p.running + length p.waiting)
  length-everywhere p =
      omega
        (arith, length-append p.ended (p.running ++ p.waiting), length-append p.running p.waiting)

  pub start-cases :
      (limit : Option ℕ) (w : List (Option Error)) (p p' : Pool Error)
      → start_task limit w p ≡ some p'
      → (t : Option Error) × (ts : List (Option Error)) × ((w ≡ t ∷ ts)
          × (has_slot limit (length p.running) ≡ true)
          × (p' ≡ record p { waiting = ts; running = p.running ++ t ∷ [] }))
  unfolding start_task
  start-cases limit [] p p' h = ground arith
  start-cases limit (t ∷ ts) p p' h = elim (Bool-cases (has_slot limit (length p.running))) [
    | inl room ↦ (t, ts, (refl, room, ground arith))
    | inr full ↦ absurd (ground arith)
  ]

  pub finish-cases :
      (limit : Option ℕ) (i : ℕ) (p p' : Pool Error)
      → step limit (finish i) p ≡ some p'
      → (t : Option Error) × (rest : List (Option Error)) × ((take_out i p.running ≡ some (t, rest))
          × (p'
              ≡ record p { running = rest; ended = p.ended ++ t ∷ []; err_ch = offer t p.err_ch }))
  unfolding step finish_task
  finish-cases limit i p p' h = elim (Option-cases (take_out i p.running)) [
    | inl e ↦ absurd (ground arith)
    | inr ((t, rest), e) ↦ (t, rest, (e, ground arith))
  ]

  started-IsPool :
      (limit : Option ℕ) (tasks ts : List (Option Error)) (t : Option Error) (p : Pool Error)
      → IsPool limit tasks p
      → p.waiting ≡ t ∷ ts
      → has_slot limit (length p.running) ≡ true
      → IsPool limit tasks (record p { waiting = ts; running = p.running ++ t ∷ [] })
  started-IsPool limit tasks ts t p (same, number, within, first) w room =
      let p' : Pool Error = record p { waiting = ts; running = p.running ++ t ∷ [] } in
      let longer = length-append p.running (t ∷ []) in
      (
        λ x. ground (
          arith,
          same x,
          Has-everywhere x p,
          Has-everywhere x p',
          Has-append x p.running (t ∷ []),
          w,
        ),
        ground (arith, number, length-everywhere p, length-everywhere p', longer, w),
        rw longer (IsWithin-suc limit (length p.running) room),
        first,
      )

  finished-IsPool :
      (limit : Option ℕ) (tasks rest : List (Option Error)) (i : ℕ) (t : Option Error)
      (p : Pool Error)
      → IsPool limit tasks p
      → take_out i p.running ≡ some (t, rest)
      → IsPool limit tasks
          (record p { running = rest; ended = p.ended ++ t ∷ []; err_ch = offer t p.err_ch })
  finished-IsPool limit tasks rest i t p (same, number, within, first) out =
      let p' : Pool Error = record p {
        running = rest;
        ended = p.ended ++ t ∷ [];
        err_ch = offer t p.err_ch;
      } in
      let fewer = take_out-length i p.running rest t out in
      (
        λ x. ground (
          arith,
          same x,
          Has-everywhere x p,
          Has-everywhere x p',
          Has-append x p.ended (t ∷ []),
          take_out-Has i p.running rest t x out,
        ),
        omega (
          arith,
          number,
          length-everywhere p,
          length-everywhere p',
          fewer,
          length-append p.ended (t ∷ []),
        ),
        IsWithin-less limit (length p.running) (length rest) (omega (arith, fewer)) within,
        ap (offer t) first ∙ sym (first_error-append p.ended t),
      )

  step-IsPool :
      (limit : Option ℕ) (tasks : List (Option Error)) (m : Move) (p p' : Pool Error)
      → IsPool limit tasks p
      → step limit m p ≡ some p'
      → IsPool limit tasks p'
  unfolding step
  step-IsPool limit tasks start p p' h e =
      let (t, ts, (w, room, same)) = start-cases limit p.waiting p p' e in
      rw same (started-IsPool limit tasks ts t p h w room)
  step-IsPool limit tasks (finish i) p p' h e =
      let (t, rest, (out, same)) = finish-cases limit i p p' e in
      rw same (finished-IsPool limit tasks rest i t p h out)

  pub run_moves-IsPool :
      (limit : Option ℕ) (tasks : List (Option Error)) (ms : List Move) (p p' : Pool Error)
      → IsPool limit tasks p
      → run_moves limit ms p ≡ some p'
      → IsPool limit tasks p'
  unfolding run_moves
  run_moves-IsPool limit tasks [] p p' h e = ground arith
  run_moves-IsPool limit tasks (m ∷ ms) p p' h e = elim (Option-cases (step limit m p)) [
    | inl stuck ↦ absurd (ground arith)
    | inr (q, goes) ↦
        run_moves-IsPool limit tasks ms q p' (step-IsPool limit tasks m p q h goes)
          (rw (goes, run_moves) at e)
  ]

  pub new_pool-IsPool :
      (limit : Option ℕ) (tasks : List (Option Error)) → IsPool limit tasks (new_pool tasks)
  unfolding new_pool
  new_pool-IsPool none tasks = (λ t. (λ z. z, λ z. z), refl, tt, refl)
  new_pool-IsPool (some limit) tasks = (λ t. (λ z. z, λ z. z), refl, omega arith, refl)
