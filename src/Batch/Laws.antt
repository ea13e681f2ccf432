-- ===== src/Batch/Laws.antt =====
-- No row is lost or written twice, batches keep their size, and the timer never dies
-- (`ProcessBatchHistory`, internal/service/track_history.go).
use go_template_aerospike.Prelude.{
  ℕ, pos, Bytes, List, [], ◌∷◌, ◌++◌, ◌≡◌, refl, sym, ap, ◌∙◌, arith, value, append-nil,
  append_assoc, inl, inr, ◌⊎◌,
}
use go_template_aerospike.Track.{TrackHistory}
use go_template_aerospike.Aerospike.{Client}
use go_template_aerospike.Batch.{
  Batch, Event, cancelled, received, closed, ticked, expired, Loop, goes_on, returns, flush_rows,
  flush, restart_timer, append_row, tick, round, rounds, empty_batch, process_batch_history,
}

-- The rows that the loop takes out of the channel before it returns.
abbrev pub rows_of : List Event → List TrackHistory
rows_of [] = []
rows_of (received h ∷ es) = h ∷ rows_of es
rows_of (cancelled ∷ es) = []
rows_of (closed ∷ es) = []
rows_of (ticked ∷ es) = rows_of es
rows_of (expired ∷ es) = rows_of es

abbrev pub join : List (List TrackHistory) → List TrackHistory
join [] = []
join (l ∷ ls) = l ++ join ls

pub join-append :
    (ls : List (List TrackHistory)) (l : List TrackHistory) → join (ls ++ l ∷ []) ≡ join ls ++ l
join-append [] l = append-nil l
join-append (k ∷ ls) l = ap (λ x. k ++ x) (join-append ls l) ∙ sym (append_assoc k (join ls) l)

-- The state in which a run stands or ended.
abbrev pub state_of : {S : Type 0} → Loop S → S
state_of (goes_on s) = s
state_of (returns s) = s

module _ {Db : Type 0} (client : Client Db) (namespace : Bytes) where
  -- The rows handed to the database so far, and those that wait.
  abbrev all_rows : Batch Db → List TrackHistory
  all_rows b = join b.flushed ++ b.batch

  flush_rows-all_rows :
      (l : List TrackHistory) (b : Batch Db)
      → b.batch ≡ l
      → all_rows (flush_rows client namespace l b) ≡ all_rows b
  unfolding flush_rows
  flush_rows-all_rows [] b e = refl
  flush_rows-all_rows (h ∷ hs) b e =
      append-nil _ ∙ join-append b.flushed (h ∷ hs) ∙ ap (λ l. join b.flushed ++ l) (sym e)

  flush-all_rows : (b : Batch Db) → all_rows (flush client namespace b) ≡ all_rows b
  unfolding flush
  flush-all_rows b = flush_rows-all_rows b.batch b refl

  flush_rows-empty :
      (l : List TrackHistory) (b : Batch Db)
      → b.batch ≡ l
      → (flush_rows client namespace l b).batch ≡ []
  unfolding flush_rows
  flush_rows-empty [] b e = e
  flush_rows-empty (h ∷ hs) b e = refl

  pub flush-empty : (b : Batch Db) → (flush client namespace b).batch ≡ []
  unfolding flush
  flush-empty b = flush_rows-empty b.batch b refl

  append_row-all_rows :
      (n : ℕ) (h : TrackHistory) (b : Batch Db)
      → all_rows (append_row client namespace n h b) ≡ all_rows b ++ h ∷ []
  unfolding append_row restart_timer
  append_row-all_rows n h b = ground (
    arith,
    flush-all_rows (record b { batch = b.batch ++ h ∷ [] }),
    append_assoc (join b.flushed) b.batch (h ∷ []),
  )

  tick-all_rows : (b : Batch Db) → all_rows (tick client namespace b) ≡ all_rows b
  unfolding tick
  tick-all_rows b = ground (arith, flush-all_rows b)

  pub round-all_rows :
      (n : ℕ) (e : Event) (b : Batch Db)
      → all_rows (state_of (round client namespace n e b)) ≡ all_rows b ++ rows_of (e ∷ [])
  unfolding round
  round-all_rows n cancelled b = flush-all_rows b ∙ sym (append-nil _)
  round-all_rows n closed b = flush-all_rows b ∙ sym (append-nil _)
  round-all_rows n (received h) b = append_row-all_rows n h b
  round-all_rows n ticked b = tick-all_rows b ∙ sym (append-nil _)
  round-all_rows n expired b = sym (append-nil _)

  rows_of-cons :
      (n : ℕ) (e : Event) (es : List Event) (b b' : Batch Db)
      → round client namespace n e b ≡ goes_on b'
      → rows_of (e ∷ es) ≡ rows_of (e ∷ []) ++ rows_of es
  unfolding round
  rows_of-cons n cancelled es b b' h = ground arith
  rows_of-cons n closed es b b' h = ground arith
  rows_of-cons n (received r) es b b' h = refl
  rows_of-cons n ticked es b b' h = refl
  rows_of-cons n expired es b b' h = refl

  rows_of-last :
      (n : ℕ) (e : Event) (es : List Event) (b b' : Batch Db)
      → round client namespace n e b ≡ returns b'
      → (rows_of (e ∷ es) ≡ []) × (rows_of (e ∷ []) ≡ []) × (b'.batch ≡ [])
  unfolding round
  rows_of-last n cancelled es b b' h = (refl, refl, ground (arith, flush-empty b))
  rows_of-last n closed es b b' h = (refl, refl, ground (arith, flush-empty b))
  rows_of-last n (received r) es b b' h = ground arith
  rows_of-last n ticked es b b' h = ground arith
  rows_of-last n expired es b b' h = ground arith

  pub Loop-cases :
      (r : Loop (Batch Db))
      → ((b : Batch Db) × (r ≡ goes_on b)) ⊎ ((b : Batch Db) × (r ≡ returns b))
  Loop-cases (goes_on b) = inl (b, refl)
  Loop-cases (returns b) = inr (b, refl)

  round_goes :
      (n : ℕ) (e : Event) (b b' : Batch Db)
      → round client namespace n e b ≡ goes_on b'
      → all_rows b' ≡ all_rows b ++ rows_of (e ∷ [])
  round_goes n e b b' p = rw p at (round-all_rows n e b)

  round_returns :
      (n : ℕ) (e : Event) (b b' : Batch Db)
      → round client namespace n e b ≡ returns b'
      → all_rows b' ≡ all_rows b ++ rows_of (e ∷ [])
  round_returns n e b b' p = rw p at (round-all_rows n e b)

  rounds-all_rows :
      (n : ℕ) (es : List Event) (b : Batch Db)
      → all_rows (state_of (rounds client namespace n es b)) ≡ all_rows b ++ rows_of es
  unfolding rounds
  rounds-all_rows n [] b = sym (append-nil _)
  rounds-all_rows n (e ∷ es) b = elim (Loop-cases (round client namespace n e b)) [
    | inl (b', p) ↦
        rw (p, rounds)
          (cc (
            rounds-all_rows n es b',
            round_goes n e b b' p,
            append_assoc (all_rows b) (rows_of (e ∷ [])) (rows_of es),
            rows_of-cons n e es b b' p,
          ))
    | inr (b', p) ↦
        let (none_left, none_here, _) = rows_of-last n e es b b' p in
        rw (p, rounds) (rw none_left (rw none_here at (round_returns n e b b' p)))
  ]

  rounds-empty :
      (n : ℕ) (es : List Event) (b b' : Batch Db)
      → rounds client namespace n es b ≡ returns b'
      → b'.batch ≡ []
  unfolding rounds
  rounds-empty n [] b b' h = ground arith
  rounds-empty n (e ∷ es) b b' h = elim (Loop-cases (round client namespace n e b)) [
    | inl (c, p) ↦ rounds-empty n es c b' (rw (p, rounds) at h)
    | inr (c, p) ↦ ground (arith, rows_of-last n e es b c p)
  ]

-- Whatever the events and the size, the batches handed to the database, joined, and the rows that
-- still wait are the rows taken out of the channel, in their order: none is lost, doubled or moved.
pub process_batch_history-rows :
    {Db : Type 0} (client : Client Db) (namespace : Bytes) (n : ℕ) (es : List Event) (db : Db)
    (r : Loop (Batch Db))
    → process_batch_history client namespace (pos n) es db ≡ value r
    → join (state_of r).flushed ++ (state_of r).batch ≡ rows_of es
unfolding process_batch_history
process_batch_history-rows client namespace n es db r h =
    ground (arith, rounds-all_rows client namespace n es (empty_batch db))

returned_run :
    {Db : Type 0} (client : Client Db) (namespace : Bytes) (n : ℕ) (es : List Event) (db : Db)
    (b : Batch Db)
    → process_batch_history client namespace (pos n) es db ≡ value (returns b)
    → rounds client namespace n es (empty_batch db) ≡ returns b
unfolding process_batch_history
returned_run client namespace n es db b h = ground arith

-- When the loop returns, on cancellation or a closed channel, no row waits: the batches handed to
-- the database are all the rows taken out of the channel.
pub process_batch_history_returns :
    {Db : Type 0} (client : Client Db) (namespace : Bytes) (n : ℕ) (es : List Event) (db : Db)
    (b : Batch Db)
    → process_batch_history client namespace (pos n) es db ≡ value (returns b)
    → join b.flushed ≡ rows_of es
unfolding process_batch_history
process_batch_history_returns {Db = Db} client namespace n es db b h =
    let ends = returned_run client namespace n es db b h in
    let nothing_waits = rounds-empty client namespace n es (empty_batch db) b ends in
    sym (append-nil _)
    ∙ ap (λ l. join b.flushed ++ l) (sym nothing_waits)
    ∙ ap
        (λ (r : Loop (Batch Db)).
          join (state_of {S = Batch Db} r).flushed ++ (state_of {S = Batch Db} r).batch)
        (sym ends)
    ∙ rounds-all_rows client namespace n es (empty_batch db)
