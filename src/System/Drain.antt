-- ===== src/System/Drain.antt =====
-- The writer while handlers run: its batches, and how it gets to where no row waits
-- (internal/service/track_history.go).
use go_template_aerospike.Prelude.{
  ℕ, ◌≤◌, ℤ, true, false, Option, none, some, List, [], ◌∷◌, ◌++◌, ◌≡◌, ◌||◌, refl, sym, ap, ◌∙◌,
  arith, Outcome, returned, panicked, blocked, append-nil, take_out,
}
use go_template_aerospike.Track.{TrackHistory}
use go_template_aerospike.Service.{World, Service}
use go_template_aerospike.Batch.{Timer, received, ticked, expired, expire, tick, round}
use go_template_aerospike.Batch.Laws.{join, flush-empty}
use go_template_aerospike.Batch.Bounds.{IsBounded, round-bounds}
use go_template_aerospike.System.{
  Handler, advance, System, Happening, delivers, runs, takes, ticks, expires, new_system, went,
  write, run_handler, take_row, happen_alive, run_system, run_cons, run_done, run_system-keeps,
}
use go_template_aerospike.System.Trace.{rows}
use go_template_aerospike.System.Accounts.{write-rows, quiet_round-rows, taken_row-rows}
use go_template_aerospike.System.Progress.{alive_happen}

module _ {Db : Type 0} (w : World Db) where
  writer-went :
      (rest : List Handler) (sys sys' : System Db) (o : Outcome (Service Db) (Option Handler))
      → went rest sys o ≡ some sys'
      → sys'.writer ≡ sys.writer
  unfolding went
  writer-went rest sys sys' (returned next s) e = ground (arith, e)
  writer-went rest sys sys' (panicked s) e = ground (arith, e)
  writer-went rest sys sys' (blocked s) e = ground (arith, e)

  writer-run_handler :
      (now : ℤ) (o : Option (Handler × List Handler)) (sys sys' : System Db)
      → run_handler w now o sys ≡ some sys'
      → sys'.writer ≡ sys.writer
  unfolding run_handler
  writer-run_handler now none sys sys' e = ground (arith, e)
  writer-run_handler now (some (h, rest)) sys sys' e =
      writer-went rest sys sys' (advance w now h sys.service) e

-- The writer takes the rows of the channel one after another, then its timer goes off and is met.
unfoldable pub drain : List TrackHistory → List Happening
drain [] = expires ∷ ticks ∷ []
drain (h ∷ hs) = takes ∷ drain hs

module _ {Db : Type 0} (w : World Db) (n : ℕ) (h1 : 1 ≤ n) where
  received-IsBounded :
      (h : TrackHistory) (sys : System Db)
      → IsBounded n sys.writer
      → IsBounded n (write w n (received h) sys).writer
  unfolding write round
  received-IsBounded h sys b =
      round-bounds w.client w.namespace n h1 (received h)
        (record sys.writer { db = sys.service.db }) b

  ticked-IsBounded :
      (sys : System Db) → IsBounded n sys.writer → IsBounded n (write w n ticked sys).writer
  unfolding write round
  ticked-IsBounded sys b =
      round-bounds w.client w.namespace n h1 ticked (record sys.writer { db = sys.service.db }) b

  expired-IsBounded :
      (sys : System Db) → IsBounded n sys.writer → IsBounded n (write w n expired sys).writer
  unfolding write round
  expired-IsBounded sys b =
      round-bounds w.client w.namespace n h1 expired (record sys.writer { db = sys.service.db }) b

  take_row-IsBounded :
      (q : List TrackHistory) (sys sys' : System Db)
      → take_row w n q sys ≡ some sys'
      → IsBounded n sys.writer
      → IsBounded n sys'.writer
  unfolding take_row
  take_row-IsBounded [] sys sys' e b = absurd (ground (arith, e))
  take_row-IsBounded (h ∷ hs) sys sys' e b =
      let left = record sys { service = record sys.service { history_ch = hs } } in
      let same : write w n (received h) left ≡ sys' = cc in
      rw (← same) (received-IsBounded h left b)

  happen_alive-IsBounded :
      (e : Happening) (sys sys' : System Db)
      → happen_alive w n e sys ≡ some sys'
      → IsBounded n sys.writer
      → IsBounded n sys'.writer
  unfolding happen_alive
  happen_alive-IsBounded (delivers subject content) sys sys' h b =
      let same : sys.writer ≡ sys'.writer = cc in rw (← same) b
  happen_alive-IsBounded (runs i now) sys sys' h b =
      rw (writer-run_handler w now (take_out i sys.handlers) sys sys' h) b
  happen_alive-IsBounded takes sys sys' h b = take_row-IsBounded sys.service.history_ch sys sys' h b
  happen_alive-IsBounded ticks sys sys' h b =
      let same : write w n ticked sys ≡ sys' = cc in rw (← same) (ticked-IsBounded sys b)
  happen_alive-IsBounded expires sys sys' h b =
      let same : write w n expired sys ≡ sys' = cc in rw (← same) (expired-IsBounded sys b)

  run_system-IsBounded :
      (es : List Happening) (db : Db) (sys : System Db)
      → run_system w n es (new_system db) ≡ some sys
      → IsBounded n sys.writer
  unfolding new_system
  run_system-IsBounded es db sys h =
      run_system-keeps w n (λ (s : System Db). IsBounded n s.writer) es (new_system db) sys
        happen_alive-IsBounded h (h1, tt, refl)

  -- The timer, which runs or has gone off, has gone off.
  expire-pending : (t : Timer) → (t.running || t.pending) ≡ true → (expire t).pending ≡ true
  unfolding expire
  expire-pending t h = ground (arith, h)

  flushed_all :
      (sys : System Db)
      → IsBounded n sys.writer
      → (write w n ticked (write w n expired sys)).writer.batch ≡ []
  unfolding write round tick
  flushed_all sys (_, _, due) =
      let gone_off : (expire sys.writer.timer).pending ≡ true =
        expire-pending sys.writer.timer due in
      rw gone_off (flush-empty w.client w.namespace _)

  -- With an empty channel, the writer's timer goes off and is met: no row waits.
  drains_last :
      (sys : System Db)
      → sys.service.history_ch ≡ []
      → sys.crashed ≡ false
      → IsBounded n sys.writer
      → (sys' : System Db) × (run_system w n (expires ∷ ticks ∷ []) sys ≡ some sys')
        × (sys'.service.history_ch ≡ [])
        × (sys'.writer.batch ≡ [])
        × (rows sys' ≡ rows sys)
        × (sys'.handlers ≡ sys.handlers)
  unfolding happen_alive
  drains_last sys ch alive b =
      let first = write w n expired sys in
      let second = write w n ticked first in
      let (ch1, hs1, _) = write-rows w n expired sys in
      let (ch2, hs2, _) = write-rows w n ticked first in
      (
        second,
        run_cons w n expires (ticks ∷ []) sys first second
            (alive_happen w n expires sys first alive refl)
            (run_cons w n ticks [] first second second
              (alive_happen w n ticks first second (unfold write in alive) refl)
              (run_done w n second)),
        ch2 ∙ ch1 ∙ ch,
        flushed_all sys b,
        quiet_round-rows w n ticked first refl ∙ quiet_round-rows w n expired sys refl,
        hs2 ∙ hs1,
      )

  drains :
      (q : List TrackHistory) (sys : System Db)
      → sys.service.history_ch ≡ q
      → sys.crashed ≡ false
      → IsBounded n sys.writer
      → (sys' : System Db) × (run_system w n (drain q) sys ≡ some sys')
        × (sys'.service.history_ch ≡ [])
        × (sys'.writer.batch ≡ [])
        × (rows sys' ≡ rows sys)
        × (sys'.handlers ≡ sys.handlers)
  unfolding drain
  drains [] sys ch alive b = drains_last sys ch alive b
  drains (h ∷ hs) sys ch alive b =
      let left = record sys { service = record sys.service { history_ch = hs } } in
      let next = write w n (received h) left in
      let (ch', hs', _) = write-rows w n (received h) left in
      let (sys', done, empty, none_wait, kept, same) =
        drains hs next ch' (unfold write in alive) (received-IsBounded h left b) in
      (
        sys',
        run_cons w n takes (drain hs) sys next sys'
            (alive_happen w n takes sys next alive
              (unfold happen_alive in ap (λ l. take_row w n l sys) ch ∙ (unfold take_row in refl)))
            done,
        empty,
        none_wait,
        kept ∙ taken_row-rows w n h hs sys ch,
        same ∙ hs',
      )

flushed_rows :
    {Db : Type 0} (sys : System Db)
    → sys.service.history_ch ≡ []
    → sys.writer.batch ≡ []
    → join sys.writer.flushed ≡ rows sys
flushed_rows sys empty none_wait =
    sym (append-nil _)
    ∙ ap (λ l. join sys.writer.flushed ++ l) (sym none_wait)
    ∙ sym (append-nil _)
    ∙ ap (λ l. (join sys.writer.flushed ++ sys.writer.batch) ++ l) (sym empty)

-- With a batch size of 1 or more, from every state that an interleaving brought about without a
-- panic, the writer alone can bring all rows on their way into batches handed to the database, in
-- their order: it takes the rows of the channel, and then its timer, which always runs or has gone
-- off, makes it write the rest. No row is left in the channel or in the buffer.
pub run_system-drains :
    {Db : Type 0} (w : World Db) (n : ℕ) (es : List Happening) (db : Db) (sys : System Db)
    → 1 ≤ n
    → run_system w n es (new_system db) ≡ some sys
    → sys.crashed ≡ false
    → (sys' : System Db) × (run_system w n (drain sys.service.history_ch) sys ≡ some sys')
      × (sys'.service.history_ch ≡ [])
      × (join sys'.writer.flushed ≡ rows sys)
      × (sys'.handlers ≡ sys.handlers)
run_system-drains w n es db sys h1 h alive =
    let (sys', done, empty, none_wait, kept, same) =
      drains w n h1 sys.service.history_ch sys refl alive
        (run_system-IsBounded w n h1 es db sys h) in
    (sys', done, empty, flushed_rows sys' empty none_wait ∙ kept, same)
