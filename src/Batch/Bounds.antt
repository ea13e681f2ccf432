-- ===== src/Batch/Bounds.antt =====
-- Batches keep their size, and the timer never dies (`ProcessBatchHistory`,
-- internal/service/track_history.go).
use go_template_aerospike.Prelude.{
  ℕ, ◌+◌, ◌≤◌, ◌<◌, pos, Bytes, Bool, true, false, List, [], ◌∷◌, ◌++◌, ◌≡◌, refl, arith, value,
  length-append, ◌||◌, if◌then◌else◌, leb, length, All, All-append, Bool-cases, inl, inr,
}
use go_template_aerospike.Track.{TrackHistory}
use go_template_aerospike.Aerospike.{Client}
use go_template_aerospike.Batch.{
  Timer, started, Batch, Event, cancelled, received, closed, ticked, expired, Loop, goes_on,
  returns, flush_rows, flush, restart_timer, append_row, tick, expire, round, rounds, empty_batch,
  process_batch_history,
}

-- A batch that `InsertBatchTrackHistory` may get.
abbrev pub IsSized : ℕ → List TrackHistory → Type 0
IsSized n l = (1 ≤ length l) × (length l ≤ n)

-- What holds between two rounds: the buffer has room, every batch written was in bounds, and the
-- timer runs or has its value waiting.
abbrev pub IsBounded : {Db : Type 0} → ℕ → Batch Db → Type 0
IsBounded n b =
    (length b.batch < n) × All (IsSized n) b.flushed × ((b.timer.running || b.timer.pending) ≡ true)

-- What holds at the end.
abbrev pub IsEnd : {Db : Type 0} → ℕ → Loop (Batch Db) → Type 0
IsEnd n (goes_on b) = IsBounded n b
IsEnd n (returns b) = (b.batch ≡ []) × All (IsSized n) b.flushed

module _ {Db : Type 0} (client : Client Db) (namespace : Bytes) (n : ℕ) (h1 : 1 ≤ n) where
  flush_rows-bounds :
      (l : List TrackHistory) (b : Batch Db)
      → b.batch ≡ l
      → length l ≤ n
      → All (IsSized n) b.flushed
      → ((flush_rows client namespace l b).batch ≡ [])
        × All (IsSized n) (flush_rows client namespace l b).flushed
  unfolding flush_rows
  flush_rows-bounds [] b e h hs = (e, hs)
  flush_rows-bounds (x ∷ xs) b e h hs =
      (refl, All-append (IsSized n) b.flushed ((x ∷ xs) ∷ []) hs ((omega arith, h), tt))

  flush-bounds :
      (b : Batch Db)
      → length b.batch ≤ n
      → All (IsSized n) b.flushed
      → ((flush client namespace b).batch ≡ []) × All (IsSized n) (flush client namespace b).flushed
  unfolding flush
  flush-bounds b h hs = flush_rows-bounds b.batch b refl h hs

  append_row-bounds :
      (r : TrackHistory) (b : Batch Db)
      → IsBounded n b
      → IsBounded n (append_row client namespace n r b)
  unfolding append_row restart_timer
  append_row-bounds r b (h, hs, ht) =
      let longer : length (b.batch ++ r ∷ []) ≡ length b.batch + 1 =
        length-append b.batch (r ∷ []) in
      elim (Bool-cases (leb n (length (b.batch ++ r ∷ [])))) [
        | inl full ↦
            let (none_left, sized) =
              flush-bounds (record b { batch = b.batch ++ r ∷ [] }) (omega (arith, longer)) hs in
            rw full (rw none_left (omega arith), sized, refl)
        | inr room ↦ rw room (ground (arith, longer), hs, ht)
      ]

  reset-bounds :
      (b : Batch Db)
      → IsBounded n b
      → IsBounded n (record (flush client namespace b) { timer = started })
  reset-bounds b (h, hs, ht) =
      let (none_left, sized) = flush-bounds b (omega arith) hs in
      (rw none_left (omega arith), sized, refl)

  either-bounds :
      (due : Bool) (b : Batch Db)
      → IsBounded n b
      → IsBounded n (if due then record (flush client namespace b) { timer = started } else b)
  either-bounds true b h = reset-bounds b h
  either-bounds false b h = h

  tick-bounds : (b : Batch Db) → IsBounded n b → IsBounded n (tick client namespace b)
  unfolding tick
  tick-bounds b h = either-bounds b.timer.pending b h

  expire-alive :
      (t : Timer)
      → (t.running || t.pending) ≡ true
      → ((expire t).running || (expire t).pending) ≡ true
  unfolding expire
  expire-alive t h = ground arith

  pub round-bounds :
      (e : Event) (b : Batch Db) → IsBounded n b → IsEnd n (round client namespace n e b)
  unfolding round
  round-bounds cancelled b (h, hs, ht) = flush-bounds b (omega arith) hs
  round-bounds closed b (h, hs, ht) = flush-bounds b (omega arith) hs
  round-bounds (received r) b h = append_row-bounds r b h
  round-bounds ticked b h = tick-bounds b h
  round-bounds expired b (h, hs, ht) = (h, hs, expire-alive b.timer ht)

  Loop-IsEnd :
      (l : Loop (Batch Db)) (es : List Event)
      → IsEnd n l
      → ((b : Batch Db) → IsBounded n b → IsEnd n (rounds client namespace n es b))
      → IsEnd n (elim l [ goes_on b' ↦ rounds client namespace n es b' | returns b' ↦ returns b' ])
  Loop-IsEnd (goes_on b) es h k = k b h
  Loop-IsEnd (returns b) es h k = h

  rounds-bounds :
      (es : List Event) (b : Batch Db) → IsBounded n b → IsEnd n (rounds client namespace n es b)
  unfolding rounds
  rounds-bounds [] b h = h
  rounds-bounds (e ∷ es) b h =
      Loop-IsEnd (round client namespace n e b) es (round-bounds e b h) (rounds-bounds es)

-- With a batch size of 1 or more, every batch handed to the database has at least one row and at most
-- the batch size; while the loop goes on, the buffer holds fewer rows than that and the timer runs or
-- its value waits to be received, so the age limit is never lost; when it returns, nothing waits.
pub process_batch_history-IsEnd :
    {Db : Type 0} (client : Client Db) (namespace : Bytes) (n : ℕ) (es : List Event) (db : Db)
    (r : Loop (Batch Db))
    → 1 ≤ n
    → process_batch_history client namespace (pos n) es db ≡ value r
    → IsEnd n r
unfolding process_batch_history
process_batch_history-IsEnd client namespace n es db r h e =
    let same : rounds client namespace n es (empty_batch db) ≡ r = ground arith in
    rw same at (rounds-bounds client namespace n h es (empty_batch db) (h, tt, refl))
