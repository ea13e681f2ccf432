-- ===== src/System/Termination.antt =====
-- How many steps the handlers of messages make (internal/service/event_process.go, track.go,
-- track_history.go).
use go_template_aerospike.Prelude.{ℕ, ◌+◌, ◌≤◌, some, List, [], ◌∷◌, ◌++◌, ◌≡◌, refl, ap, arith}
use go_template_aerospike.Track.{TrackHistory}
use go_template_aerospike.Service.{World}
use go_template_aerospike.Batch.{Event, received, ticked, expired}
use go_template_aerospike.System.{
  arrived, System, Happening, delivers, runs, takes, ticks, expires, new_system, write, take_row,
  happen_alive, run_system, happen_goes, run_system_goes,
}
use go_template_aerospike.System.Trace.{Message, delivered_by, delivered}
use go_template_aerospike.System.Costs.{total, costs, total-append, run_handler-total}

-- The steps that handlers make in a course of events.
abbrev pub steps_by : Happening → ℕ
steps_by (delivers subject content) = 0
steps_by (runs i now) = 1
steps_by takes = 0
steps_by ticks = 0
steps_by expires = 0

abbrev pub steps : List Happening → ℕ
steps [] = 0
steps (e ∷ es) = steps_by e + steps es

module _ {Db : Type 0} (w : World Db) (n : ℕ) where
  handlers-write : (e : Event) (sys : System Db) → (write w n e sys).handlers ≡ sys.handlers
  unfolding write
  handlers-write e sys = refl

  handlers-take_row :
      (q : List TrackHistory) (sys sys' : System Db)
      → take_row w n q sys ≡ some sys'
      → sys'.handlers ≡ sys.handlers
  unfolding take_row
  handlers-take_row [] sys sys' e = absurd (ground (arith, e))
  handlers-take_row (h ∷ hs) sys sys' e =
      let left = record sys { service = record sys.service { history_ch = hs } } in
      let same : write w n (received h) left ≡ sys' = cc in
      rw (← same) (handlers-write (received h) left)

  happen_alive-total :
      (e : Happening) (sys sys' : System Db)
      → happen_alive w n e sys ≡ some sys'
      → steps_by e + total w sys'.handlers ≤ total w sys.handlers + costs w (delivered_by e)
  unfolding happen_alive
  happen_alive-total (delivers subject content) sys sys' h =
      let same : sys.handlers ++ arrived subject content ∷ [] ≡ sys'.handlers = cc in
      omega (arith, ap (total w) same, total-append w sys.handlers (arrived subject content ∷ []))
  happen_alive-total (runs i now) sys sys' h = omega (arith, run_handler-total w i now sys sys' h)
  happen_alive-total takes sys sys' h =
      omega (arith, ap (total w) (handlers-take_row sys.service.history_ch sys sys' h))
  happen_alive-total ticks sys sys' h =
      let same : write w n ticked sys ≡ sys' = cc in
      omega (
        arith,
        ap (λ (s : System Db). total w s.handlers) same,
        ap (total w) (handlers-write ticked sys),
      )
  happen_alive-total expires sys sys' h =
      let same : write w n expired sys ≡ sys' = cc in
      omega (
        arith,
        ap (λ (s : System Db). total w s.handlers) same,
        ap (total w) (handlers-write expired sys),
      )

  costs-append : (xs ys : List Message) → costs w (xs ++ ys) ≡ costs w xs + costs w ys
  costs-append [] ys = omega arith
  costs-append (x ∷ xs) ys = omega (arith, costs-append xs ys)

  run_system-total :
      (es : List Happening) (sys sys' : System Db)
      → run_system w n es sys ≡ some sys'
      → steps es + total w sys'.handlers ≤ total w sys.handlers + costs w (delivered es)
  run_system-total [] sys sys' h =
      let same : sys ≡ sys' = unfold run_system in cc in
      omega (arith, ap (λ (s : System Db). total w s.handlers) same)
  run_system-total (e ∷ es) sys sys' h =
      let (next, first, later) = run_system_goes w n e es sys sys' h in
      omega (
        arith,
        happen_alive-total e sys next (happen_goes w n e sys next first).1,
        run_system-total es next sys' later,
        costs-append (delivered_by e) (delivered es),
      )

-- In every interleaving, the handlers together make at most five steps for each delivered message, and
-- three more for each id that a message would remove: no handler runs for ever.
pub run_system-steps :
    {Db : Type 0} (w : World Db) (n : ℕ) (es : List Happening) (db : Db) (sys : System Db)
    → run_system w n es (new_system db) ≡ some sys
    → steps es ≤ costs w (delivered es)
unfolding new_system
run_system-steps w n es db sys h = omega (arith, run_system-total w n es (new_system db) sys h)
