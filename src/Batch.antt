-- ===== src/Batch.antt =====
-- `ProcessBatchHistory` (internal/service/track_history.go): the goroutine that collects the rows of
-- the history channel and writes them in batches. Its `select` takes whichever case the environment
-- makes ready, so a run is a list of events. The timer follows Go's runtime from version 1.23 on.
pub mod Laws
pub mod Bounds
pub mod Stored
use go_template_aerospike.Prelude.{
  ℕ, ℤ, pos, negsuc, Bytes, Bool, true, false, some, List, [], ◌∷◌, ◌++◌, map, Checked, value,
  panic, if◌then◌else◌, leb, length,
}
use go_template_aerospike.Track.{TrackHistory}
use go_template_aerospike.Aerospike.{Client}
use go_template_aerospike.History.{insert_batch_track_history}

-- `time.Timer`: it runs until it goes off, and its channel then holds a value.
pub record Timer : Type 0 where
  pub running : Bool
  pub pending : Bool

-- `NewTimer` and `Reset`: no value from before is ever received.
abbrev pub started : Timer
started = record { running = true; pending = false }

-- `Stop` gives whether the timer was running.
unfoldable pub stop : Timer → Bool × Timer
stop t = (t.running, record { running = false; pending = false })

-- `select { case <-timer.C: default: }`
unfoldable pub drain : Timer → Timer
drain t = record t { pending = false }

-- The timer goes off.
unfoldable pub expire : Timer → Timer
expire t = if t.running then record { running = false; pending = true } else t

pub record Batch (Db : Type 0) : Type 0 where
  pub batch : List TrackHistory
  pub timer : Timer
  pub db : Db
  -- the batches handed to `InsertBatchTrackHistory`, oldest first
  pub flushed : List (List TrackHistory)

-- What a round of the loop meets. `expired` is the runtime's: the timer goes off.
pub data Event : Type 0 where
  cancelled : Event
  received : TrackHistory → Event
  closed : Event
  ticked : Event
  expired : Event

-- Whether the loop goes on.
pub data Loop (S : Type 0) : Type 0 where
  goes_on : S → Loop S
  returns : S → Loop S

abbrev pub empty_batch : {Db : Type 0} → Db → Batch Db
empty_batch db = record { batch = []; timer = started; db = db; flushed = [] }

module _ {Db : Type 0} (client : Client Db) (namespace : Bytes) where
  -- The error of the write is only logged: the batch is emptied all the same.
  unfoldable pub flush_rows : List TrackHistory → Batch Db → Batch Db
  flush_rows [] b = b
  flush_rows (h ∷ hs) b = record b {
    batch = [];
    db = (insert_batch_track_history client namespace (map some (h ∷ hs)) b.db).1;
    flushed = b.flushed ++ (h ∷ hs) ∷ [];
  }

  unfoldable pub flush : Batch Db → Batch Db
  unfolding flush_rows
  flush b = flush_rows b.batch b

  abbrev pub reset_timer : Batch Db → Batch Db
  reset_timer b = record b { timer = started }

  -- `if !timer.Stop() { … drain … }; timer.Reset(s.BatchMaxAge)`
  unfoldable pub restart_timer : Batch Db → Batch Db
  unfolding stop drain
  restart_timer b =
      let (was_running, t) = stop b.timer in
      reset_timer (record b { timer = if was_running then t else drain t })

  unfoldable pub append_row : ℕ → TrackHistory → Batch Db → Batch Db
  append_row batch_size h b =
      let b' = record b { batch = b.batch ++ h ∷ [] } in
      if leb batch_size (length b'.batch) then restart_timer (flush b') else b'

  -- The timer's case is ready only while its channel holds a value.
  unfoldable pub tick : Batch Db → Batch Db
  tick b = if b.timer.pending then reset_timer (flush b) else b

  unfoldable pub round : ℕ → Event → Batch Db → Loop (Batch Db)
  round batch_size cancelled b = returns (flush b)
  round batch_size closed b = returns (flush b)
  round batch_size (received h) b = goes_on (append_row batch_size h b)
  round batch_size ticked b = goes_on (tick b)
  round batch_size expired b = goes_on (record b { timer = expire b.timer })

  unfoldable pub rounds : ℕ → List Event → Batch Db → Loop (Batch Db)
  rounds batch_size [] b = goes_on b
  rounds batch_size (e ∷ es) b = elim (round batch_size e b) [
    | goes_on b' ↦ rounds batch_size es b'
    | returns b' ↦ returns b'
  ]

  -- `make([]*dbmodel.TrackHistory, 0, s.BatchSize)` panics on a negative size.
  unfoldable pub process_batch_history : ℤ → List Event → Db → Checked (Loop (Batch Db))
  process_batch_history (pos batch_size) es db = value (rounds batch_size es (empty_batch db))
  process_batch_history (negsuc n) es db = panic
