-- ===== src/Batch/Stored.antt =====
-- Every row that the loop receives ends in the database (`ProcessBatchHistory`,
-- internal/service/track_history.go).
use go_template_aerospike.Prelude.{
  ℕ, pos, Bytes, Bool, true, false, Option, none, some, List, [], ◌∷◌, ◌++◌, ◌≡◌, refl, sym, ap,
  ◌∙◌, arith, map, value, if◌then◌else◌, leb, length, Bool-cases, inl, inr,
}
use go_template_aerospike.Track.{TrackHistory}
use go_template_aerospike.Aerospike.{Client, Key, Fields, IsFaithful}
use go_template_aerospike.History.{insert_history, insert_batch_track_history}
use go_template_aerospike.History.Writes.{
  last_row, last_row-cons, shadowed, get-insert_batch_track_history,
}
use go_template_aerospike.Batch.{
  Batch, Event, cancelled, received, closed, ticked, expired, Loop, goes_on, returns, flush_rows,
  flush, restart_timer, append_row, tick, round, rounds, empty_batch, process_batch_history,
}
use go_template_aerospike.Batch.Laws.{
  rows_of, join, join-append, state_of, process_batch_history_returns,
}

-- Every write of a row succeeds.
abbrev pub IsWritable : {Db : Type 0} → Client Db → Bytes → Type 0
IsWritable {Db} client namespace =
    (h : TrackHistory) (db : Db) → (insert_history client namespace h db).0 ≡ none

last_row-append :
    (namespace : Bytes) (k : Key) (xs ys : List TrackHistory) (o : Option Fields)
    → shadowed (last_row namespace k (map some (xs ++ ys))) o
      ≡ shadowed
          (last_row namespace k (map some ys))
          (shadowed (last_row namespace k (map some xs)) o)
unfolding last_row
last_row-append namespace k [] ys o = refl
last_row-append namespace k (x ∷ xs) ys o =
    last_row-cons namespace k x (map some (xs ++ ys)) o
    ∙ last_row-append namespace k xs ys (shadowed (last_row namespace k (some x ∷ [])) o)
    ∙ ap (shadowed (last_row namespace k (map some ys)))
        (sym (last_row-cons namespace k x (map some xs) o))

module _ {Db : Type 0} (client : Client Db) (get : Key → Db → Option Fields) (namespace : Bytes)
    (faithful : IsFaithful client get) (writable : IsWritable client namespace) (k : Key)
    (start : Option Fields) where
  batch_succeeds :
      (l : List TrackHistory) (db : Db)
      → (insert_batch_track_history client namespace (map some l) db).0 ≡ none
  unfolding insert_batch_track_history
  batch_succeeds [] db = refl
  batch_succeeds (h ∷ l) db =
      ground (arith, writable h db, batch_succeeds l (insert_history client namespace h db).1)

  -- The database shows what was there at the start, shadowed by the batches written so far.
  abbrev IsStored : Batch Db → Type 0
  IsStored b = get k b.db ≡ shadowed (last_row namespace k (map some (join b.flushed))) start

  flush_rows-IsStored :
      (l : List TrackHistory) (b : Batch Db)
      → IsStored b
      → IsStored (flush_rows client namespace l b)
  unfolding flush_rows
  flush_rows-IsStored [] b h = h
  flush_rows-IsStored (x ∷ xs) b h =
      get-insert_batch_track_history client get namespace (map some (x ∷ xs)) b.db faithful
        (batch_succeeds (x ∷ xs) b.db) k
      ∙ ap (shadowed (last_row namespace k (map some (x ∷ xs)))) h
      ∙ sym (last_row-append namespace k (join b.flushed) (x ∷ xs) start)
      ∙ ap (λ l. shadowed (last_row namespace k (map some l)) start)
          (sym (join-append b.flushed (x ∷ xs)))

  flush-IsStored : (b : Batch Db) → IsStored b → IsStored (flush client namespace b)
  unfolding flush
  flush-IsStored b h = flush_rows-IsStored b.batch b h

  append_row-IsStored :
      (n : ℕ) (r : TrackHistory) (b : Batch Db)
      → IsStored b
      → IsStored (append_row client namespace n r b)
  unfolding append_row restart_timer
  append_row-IsStored n r b h = elim (Bool-cases (leb n (length (b.batch ++ r ∷ [])))) [
    | inl full ↦ rw full (flush-IsStored (record b { batch = b.batch ++ r ∷ [] }) h)
    | inr room ↦ rw room h
  ]

  either-IsStored :
      (due : Bool) (b b' : Batch Db) → IsStored b → IsStored b' → IsStored (if due then b else b')
  either-IsStored true b b' h h' = h
  either-IsStored false b b' h h' = h'

  pub round-IsStored :
      (n : ℕ) (e : Event) (b : Batch Db)
      → IsStored b
      → IsStored (state_of (round client namespace n e b))
  unfolding round tick
  round-IsStored n cancelled b h = flush-IsStored b h
  round-IsStored n closed b h = flush-IsStored b h
  round-IsStored n (received r) b h = append_row-IsStored n r b h
  round-IsStored n ticked b h = either-IsStored b.timer.pending _ b (flush-IsStored b h) h
  round-IsStored n expired b h = h

  Loop-IsStored :
      (n : ℕ) (l : Loop (Batch Db)) (es : List Event)
      → IsStored (state_of l)
      → ((b : Batch Db) → IsStored b → IsStored (state_of (rounds client namespace n es b)))
      → IsStored (
          state_of
            (elim l [ goes_on b' ↦ rounds client namespace n es b' | returns b' ↦ returns b' ]))
  Loop-IsStored n (goes_on b) es h rest = rest b h
  Loop-IsStored n (returns b) es h rest = h

  rounds-IsStored :
      (n : ℕ) (es : List Event) (b : Batch Db)
      → IsStored b
      → IsStored (state_of (rounds client namespace n es b))
  unfolding rounds
  rounds-IsStored n [] b h = h
  rounds-IsStored n (e ∷ es) b h =
      Loop-IsStored n (round client namespace n e b) es (round-IsStored n e b h)
        (rounds-IsStored n es)

-- If every write succeeds, then once the loop has returned each key of the database holds the last row
-- received for it, and a key that no row has holds what it held at the start.
pub process_batch_history-stored :
    {Db : Type 0} (client : Client Db) (get : Key → Db → Option Fields) (namespace : Bytes) (n : ℕ)
    (es : List Event) (db : Db) (b : Batch Db) (k : Key)
    → IsFaithful client get
    → IsWritable client namespace
    → process_batch_history client namespace (pos n) es db ≡ value (returns b)
    → get k b.db ≡ shadowed (last_row namespace k (map some (rows_of es))) (get k db)
unfolding process_batch_history
process_batch_history-stored client get namespace n es db b k faithful writable h =
    let ends : rounds client namespace n es (empty_batch db) ≡ returns b = ground arith in
    let stored =
      rounds-IsStored client get namespace faithful writable k (get k db) n es (empty_batch db)
        (unfold last_row in refl) in
    rw (← process_batch_history_returns client namespace n es db b h) (rw ends at stored)
