-- ===== src/System/Stored.antt =====
-- What the database holds while handlers and writer run next to each other, as long as no message
-- removes a track (internal/service/track.go, track_history.go).
use go_template_aerospike.Prelude.{
  ℕ, ◌≤◌, false, ℤ, Option, some, List, [], ◌∷◌, ◌++◌, ◌≡◌, refl, ap, ◌∙◌, arith, Outcome, true,
  returned, panicked, blocked, All, All-append, map, Option-cases, inl, inr, take_out, take_out-All,
}
use go_template_aerospike.Track.{TrackHistory}
use go_template_aerospike.Aerospike.{Key, Fields, IsFaithful}
use go_template_aerospike.History.Writes.{last_row, shadowed}
use go_template_aerospike.Service.{World, Service, new_service}
use go_template_aerospike.Batch.{Event, received, ticked, expired}
use go_template_aerospike.Batch.Laws.{join}
use go_template_aerospike.Batch.Stored.{IsWritable, round-IsStored}
use go_template_aerospike.System.{
  Handler, arrived, advance, System, Happening, delivers, runs, takes, ticks, expires, new_system,
  still_there, went, write, run_handler, take_row, happen_alive, run_system, happen_goes,
  run_system_goes,
}
use go_template_aerospike.System.Trace.{Message, delivered_by, delivered, rows}
use go_template_aerospike.System.Quiet.{IsNoRemoval, IsHarmless, IsQuiet, advance-IsQuiet}
use go_template_aerospike.System.Drain.{drain, run_system-drains}

module _ {Db : Type 0} (w : World Db) (n : ℕ) (get : Key → Db → Option Fields)
    (faithful : IsFaithful w.client get) (writable : IsWritable w.client w.namespace) (k : Key)
    (start : Option Fields) where
  -- The database shows the batches written so far over the start, and no handler will delete.
  record IsKept (sys : System Db) : Type 0 where
    stored :
        get k sys.service.db
        ≡ shadowed (last_row w.namespace k (map some (join sys.writer.flushed))) start
    harmless : All (IsHarmless w) sys.handlers

  went-IsKept :
      (rest : List Handler) (sys sys' : System Db) (o : Outcome (Service Db) (Option Handler))
      → went rest sys o ≡ some sys'
      → IsQuiet w sys.service o
      → All (IsHarmless w) rest
      → IsKept sys
      → IsKept sys'
  unfolding went
  went-IsKept rest sys sys' (returned next s) e (same_db, will) others kept =
      let same : record sys { service = s; handlers = still_there next ++ rest } ≡ sys' = cc in
      rw (← same) (record {
        stored = rw same_db kept.stored;
        harmless = All-append (IsHarmless w) (still_there next) rest will others;
      })
  went-IsKept rest sys sys' (panicked s) e same_db others kept =
      let same : record sys { service = s; handlers = rest; crashed = true } ≡ sys' = cc in
      rw (← same) (record { stored = rw same_db kept.stored; harmless = others })
  went-IsKept rest sys sys' (blocked s) e q others kept = absurd (ground (arith, e))

  run_handler-IsKept :
      (i : ℕ) (now : ℤ) (sys sys' : System Db)
      → run_handler w now (take_out i sys.handlers) sys ≡ some sys'
      → IsKept sys
      → IsKept sys'
  unfolding run_handler
  run_handler-IsKept i now sys sys' e kept = elim (Option-cases (take_out i sys.handlers)) [
    | inl absent ↦ absurd (ground (arith, e))
    | inr ((h, rest), out) ↦
        let (will, others) = take_out-All (IsHarmless w) i sys.handlers rest h out kept.harmless in
        went-IsKept rest sys sys' (advance w now h sys.service) (rw out at e)
          (advance-IsQuiet w now h sys.service will) others kept
  ]

  write-IsKept : (e : Event) (sys : System Db) → IsKept sys → IsKept (write w n e sys)
  unfolding write
  write-IsKept e sys kept = record {
    stored =
        round-IsStored w.client get w.namespace faithful writable k start n e
          (record sys.writer { db = sys.service.db }) kept.stored;
    harmless = kept.harmless;
  }

  take_row-IsKept :
      (q : List TrackHistory) (sys sys' : System Db)
      → take_row w n q sys ≡ some sys'
      → IsKept sys
      → IsKept sys'
  unfolding take_row
  take_row-IsKept [] sys sys' e kept = absurd (ground (arith, e))
  take_row-IsKept (h ∷ hs) sys sys' e kept =
      let left = record sys { service = record sys.service { history_ch = hs } } in
      let same : write w n (received h) left ≡ sys' = cc in
      rw (← same)
        (write-IsKept (received h) left (record { stored = kept.stored; harmless = kept.harmless }))

  happen_alive-IsKept :
      (e : Happening) (sys sys' : System Db)
      → happen_alive w n e sys ≡ some sys'
      → All (IsNoRemoval w) (delivered_by e)
      → IsKept sys
      → IsKept sys'
  unfolding happen_alive
  happen_alive-IsKept (delivers subject content) sys sys' h (other, _) kept =
      let same : record sys { handlers = sys.handlers ++ arrived subject content ∷ [] } ≡ sys' =
        cc in
      rw (← same) (record {
        stored = kept.stored;
        harmless =
            All-append (IsHarmless w) sys.handlers (arrived subject content ∷ []) kept.harmless
              (other, tt);
      })
  happen_alive-IsKept (runs i now) sys sys' h others kept = run_handler-IsKept i now sys sys' h kept
  happen_alive-IsKept takes sys sys' h others kept =
      take_row-IsKept sys.service.history_ch sys sys' h kept
  happen_alive-IsKept ticks sys sys' h others kept =
      let same : write w n ticked sys ≡ sys' = cc in rw (← same) (write-IsKept ticked sys kept)
  happen_alive-IsKept expires sys sys' h others kept =
      let same : write w n expired sys ≡ sys' = cc in rw (← same) (write-IsKept expired sys kept)

  All-parts :
      (xs ys : List Message)
      → All (IsNoRemoval w) (xs ++ ys)
      → All (IsNoRemoval w) xs × All (IsNoRemoval w) ys
  All-parts [] ys h = (tt, h)
  All-parts (x ∷ xs) ys (hx, h) = let (a, b) = All-parts xs ys h in ((hx, a), b)

  run_system-IsKept :
      (es : List Happening) (sys sys' : System Db)
      → run_system w n es sys ≡ some sys'
      → All (IsNoRemoval w) (delivered es)
      → IsKept sys
      → IsKept sys'
  run_system-IsKept [] sys sys' h others kept =
      let same : sys ≡ sys' = unfold run_system in cc in rw (← same) kept
  run_system-IsKept (e ∷ es) sys sys' h others kept =
      let (next, first, later) = run_system_goes w n e es sys sys' h in
      let (here, there) = All-parts (delivered_by e) (delivered es) others in
      run_system-IsKept es next sys' later there
        (happen_alive-IsKept e sys next (happen_goes w n e sys next first).1 here kept)

IsKept-from_start :
    {Db : Type 0} (w : World Db) (n : ℕ) (get : Key → Db → Option Fields) (es : List Happening)
    (db : Db) (sys : System Db) (k : Key) (faithful : IsFaithful w.client get)
    (writable : IsWritable w.client w.namespace)
    → All (IsNoRemoval w) (delivered es)
    → run_system w n es (new_system db) ≡ some sys
    → IsKept w n get faithful writable k (get k db) sys
unfolding new_system new_service last_row
IsKept-from_start w n get es db sys k faithful writable others h =
    run_system-IsKept w n get faithful writable k (get k db) es (new_system db) sys h others
      (record { stored = refl; harmless = tt })

no_message : (w : List TrackHistory) → delivered (drain w) ≡ []
unfolding drain
no_message [] = refl
no_message (h ∷ hs) = no_message hs

-- With a batch size of 1 or more, if every write of a row succeeds and no delivered message removes a
-- track: from every state that an interleaving brought about without a panic, the writer alone can get
-- to where the database has, under each key, the bins of the last row that a handler has sent for it over
-- those that it had at the start, and what it held at the start under a key that no row has.
pub run_system-stored :
    {Db : Type 0} (w : World Db) (n : ℕ) (get : Key → Db → Option Fields) (es : List Happening)
    (db : Db) (sys : System Db)
    → 1 ≤ n
    → IsFaithful w.client get
    → IsWritable w.client w.namespace
    → All (IsNoRemoval w) (delivered es)
    → run_system w n es (new_system db) ≡ some sys
    → sys.crashed ≡ false
    → (sys' : System Db) × (run_system w n (drain sys.service.history_ch) sys ≡ some sys')
      × ((k : Key)
          → get k sys'.service.db
            ≡ shadowed (last_row w.namespace k (map some (rows sys))) (get k db))
run_system-stored w n get es db sys h1 faithful writable others h alive =
    let (sys', done, _, all_flushed, _) = run_system-drains w n es db sys h1 h alive in
    (
      sys',
      done,
      λ k.
          let kept =
            run_system-IsKept w n get faithful writable k (get k db) (drain sys.service.history_ch)
              sys sys' done (rw (no_message sys.service.history_ch) tt)
              (IsKept-from_start w n get es db sys k faithful writable others h) in
          kept.stored
          ∙ ap (λ l. shadowed (last_row w.namespace k (map some l)) (get k db)) all_flushed,
    )
