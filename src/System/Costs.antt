-- ===== src/System/Costs.antt =====
-- The steps that a handler still makes (internal/service/event_process.go, track.go,
-- track_history.go).
use go_template_aerospike.Prelude.{
  ℕ, zero, suc, ◌+◌, ◌*◌, ◌≤◌, ℤ, Bytes, Option, none, some, List, [], ◌∷◌, ◌++◌, ◌≡◌, ap, arith,
  Outcome, returned, panicked, blocked, length, Option-cases, inl, inr, take_out,
}
use go_template_aerospike.Service.{BaseMessage, World, Service}
use go_template_aerospike.System.Rules.{
  Rule, ignores, convert_panics, updates, removes, counts, publishes, stores, records,
  record_panics, sends, waits, ends, publishes_removal, unmaps, forgets, lists, drops, announces,
  advance-Rule,
}
use go_template_aerospike.System.{
  Handler, arrived, publishing, storing, recording, sending, removing, unmapping, forgetting,
  listing, dropping, announcing, advance, System, still_there, went, run_handler,
}
use go_template_aerospike.System.Trace.{Message}

module _ {Db : Type 0} (w : World Db) where
  -- Five steps for an update or a statistic, and three more for each id of a removal.
  abbrev pub cost : Option BaseMessage → ℕ
  cost none = 1
  cost (some base) = 5 + 3 * length (w.unmarshal_removed_tracks base.message_detail)

  -- The most steps that the handler still makes.
  abbrev pub rank : Handler → ℕ
  rank (arrived subject content) = cost (w.unmarshal_base_message content)
  rank (publishing t payload) = 4
  rank (storing t) = 3
  rank (recording t) = 2
  rank (sending h) = 1
  rank (removing ks) = 1 + 3 * length ks
  rank (unmapping k ks) = 3 + 3 * length ks
  rank (forgetting k ks) = 2 + 3 * length ks
  rank (listing ids payload) = 3
  rank (dropping ks payload) = 2
  rank (announcing payload) = 1

  abbrev pub total : List Handler → ℕ
  total [] = 0
  total (h ∷ hs) = rank h + total hs

  -- The steps that the messages cost at most.
  abbrev pub costs : List Message → ℕ
  costs [] = 0
  costs (m ∷ ms) = cost (w.unmarshal_base_message m.1) + costs ms

  -- The step brings the handler nearer to its end.
  abbrev IsLess : ℕ → Outcome (Service Db) (Option Handler) → Type 0
  IsLess n (returned next s) = 1 + total (still_there next) ≤ n
  IsLess n (panicked s) = 1 ≤ n
  IsLess n (blocked s) = Unit

  cost-positive : (o : Option BaseMessage) → 1 ≤ cost o
  cost-positive none = omega arith
  cost-positive (some base) = omega arith

  read-cost :
      (content : Bytes) (base : BaseMessage)
      → w.unmarshal_base_message content ≡ some base
      → cost (w.unmarshal_base_message content) ≡ cost (some base)
  read-cost content base is_read = ap cost is_read

  Rule-IsLess :
      (now : ℤ) (s : Service Db) {h : Handler} {o : Outcome (Service Db) (Option Handler)}
      → Rule w now s h o
      → IsLess (rank h) o
  Rule-IsLess now s (ignores subject content) = cost-positive (w.unmarshal_base_message content)
  Rule-IsLess now s (convert_panics subject content) =
      cost-positive (w.unmarshal_base_message content)
  Rule-IsLess now s (updates subject content payload base t e same is_read one p) =
      omega (arith, read-cost content base is_read)
  Rule-IsLess now s (removes subject content base same is_read four) =
      omega (arith, read-cost content base is_read)
  Rule-IsLess now s (counts subject content payload ids base is_read) =
      omega (arith, read-cost content base is_read)
  Rule-IsLess now s (publishes t payload p) = omega arith
  Rule-IsLess now s (stores t) = omega arith
  Rule-IsLess now s (records t h p) = omega arith
  Rule-IsLess now s (record_panics t) = omega arith
  Rule-IsLess now s (sends h room) = omega arith
  Rule-IsLess now s (waits h full) = tt
  Rule-IsLess now s (ends ks) = omega arith
  Rule-IsLess now s (publishes_removal k ks p) = omega arith
  Rule-IsLess now s (unmaps k ks) = omega arith
  Rule-IsLess now s (forgets k ks db) = omega arith
  Rule-IsLess now s (lists ids ks payload) = omega arith
  Rule-IsLess now s (drops ks payload) = omega arith
  Rule-IsLess now s (announces payload p) = omega arith

  advance-IsLess : (now : ℤ) (h : Handler) (s : Service Db) → IsLess (rank h) (advance w now h s)
  advance-IsLess now h s = Rule-IsLess now s (advance-Rule w now s h)

  pub total-append : (hs gs : List Handler) → total (hs ++ gs) ≡ total hs + total gs
  total-append [] gs = omega arith
  total-append (h ∷ hs) gs = omega (arith, total-append hs gs)

  take_out-total :
      (i : ℕ) (hs rest : List Handler) (h : Handler)
      → take_out i hs ≡ some (h, rest)
      → total hs ≡ rank h + total rest
  unfolding take_out
  take_out-total i [] rest h e = absurd (ground (arith, e))
  take_out-total zero (x ∷ hs) rest h e =
      let same : x ≡ h = cc in
      let rests : hs ≡ rest = cc in omega (arith, ap rank same, ap total rests)
  take_out-total (suc i) (x ∷ hs) rest h e = elim (Option-cases (take_out i hs)) [
    | inl p ↦ absurd (ground (arith, e, p))
    | inr ((y, r), p) ↦
        let same : y ≡ h = ground (arith, e, p) in
        let rests : x ∷ r ≡ rest = ground (arith, e, p) in
        omega (arith, take_out-total i hs r y p, ap rank same, ap total rests)
  ]

  went-total :
      (m : ℕ) (rest : List Handler) (sys sys' : System Db)
      (o : Outcome (Service Db) (Option Handler))
      → went rest sys o ≡ some sys'
      → IsLess m o
      → 1 + total sys'.handlers ≤ m + total rest
  unfolding went
  went-total m rest sys sys' (returned next s) e less =
      let same : still_there next ++ rest ≡ sys'.handlers = cc in
      omega (arith, less, total-append (still_there next) rest, ap total same)
  went-total m rest sys sys' (panicked s) e less =
      let same : rest ≡ sys'.handlers = cc in omega (arith, less, ap total same)
  went-total m rest sys sys' (blocked s) e less = absurd (ground (arith, e))

  pub run_handler-total :
      (i : ℕ) (now : ℤ) (sys sys' : System Db)
      → run_handler w now (take_out i sys.handlers) sys ≡ some sys'
      → 1 + total sys'.handlers ≤ total sys.handlers
  unfolding run_handler
  run_handler-total i now sys sys' e = elim (Option-cases (take_out i sys.handlers)) [
    | inl absent ↦ absurd (ground (arith, e, absent))
    | inr ((h, rest), out) ↦ omega (
      arith,
      went-total (rank h) rest sys sys' (advance w now h sys.service) (rw out at e)
          (advance-IsLess now h sys.service),
      take_out-total i sys.handlers rest h out,
    )
  ]
