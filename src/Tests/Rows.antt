-- ===== src/Tests/Rows.antt =====
-- Rows of the history: the store, the batches and the queries.
use go_template_aerospike.Prelude.{
  ℕ, pos, text, true, false, none, some, List, [], ◌∷◌, ◌++◌, ◌≡◌, refl, arith, if◌then◌else◌,
  value,
}
use go_template_aerospike.Track.{TrackHistory, HistoryItem}
use go_template_aerospike.Aerospike.{
  BinValue, int, int64, float32, float64, Key, matched, QueryItem, recordset,
}
use go_template_aerospike.Aerospike.Memory.{Store, get, memory, memory-IsFaithful}
use go_template_aerospike.History.{
  history_record_key, bins_of, history_from_bins, history_statement, delete_track_history,
  insert_batch_track_history, Reader, collect, found, make_history, find_by_track_id, history_key,
}
use go_template_aerospike.History.Rows.{IsReadBack, read_back, item_of, history_from_bins-bins_of}
use go_template_aerospike.History.Deletion.{get-delete_track_history}
use go_template_aerospike.History.Writes.{last_row, shadowed, get-insert_batch_track_history}
use go_template_aerospike.History.Reading.{IsNewest, find_by_track_id-IsNewest}
use go_template_aerospike.Batch.{
  Batch, Event, received, cancelled, ticked, expired, returns, process_batch_history, rounds,
  empty_batch,
}
use go_template_aerospike.Batch.Laws.{
  rows_of, join, state_of, process_batch_history-rows, process_batch_history_returns,
}
use go_template_aerospike.Batch.Bounds.{IsEnd, process_batch_history-IsEnd}
use go_template_aerospike.Tests.Sorting.{insertion_sort, insertion_sort-IsSort}
use go_template_aerospike.Tests.Messages.{test_fpu}

abbrev pub row : ℕ → TrackHistory
row at = record {
  track_id = pos 42;
  track_number = pos 42;
  altitude = 1;
  latitude = 2;
  longitude = 3;
  heading = 4;
  velocity = 5;
  identification = pos 2;
  created_at = pos at;
}

abbrev key : Key
key = history_key (text "test") (row 9)

abbrev store : Store
store = (insert_batch_track_history memory (text "test") (some (row 9) ∷ []) []).1

delete_track_history_example :
    get key (delete_track_history memory (text "test") (pos 42) store).1 ≡ (
      if matched (history_statement (text "test") (pos 42) false) key (get key store)
      then none
      else get key store)
unfolding insert_batch_track_history delete_track_history memory get
    go_template_aerospike.History.delete_rows go_template_aerospike.History.insert_history
    history_record_key go_template_aerospike.Prelude.show_int
    go_template_aerospike.Aerospike.matches bins_of go_template_aerospike.History.delete_key
    go_template_aerospike.Aerospike.bin
delete_track_history_example =
    get-delete_track_history memory get (text "test") (pos 42) store memory-IsFaithful refl key

insert_batch_example :
    get key (insert_batch_track_history memory (text "test") (some (row 9) ∷ none ∷ []) []).1
    ≡ shadowed (last_row (text "test") key (some (row 9) ∷ none ∷ [])) (get key [])
unfolding insert_batch_track_history memory go_template_aerospike.History.insert_history
insert_batch_example =
    get-insert_batch_track_history memory get (text "test") (some (row 9) ∷ none ∷ []) []
      memory-IsFaithful refl key

-- How the client hands back a value.
abbrev stored : BinValue → BinValue
stored (int64 v) = int v
stored (float32 x) = float64 x
stored v = v

stored-IsReadBack : IsReadBack test_fpu stored
stored-IsReadBack = record { integers = λ v. refl; floats = λ x. refl; narrow-widen = λ x. refl }

history_from_bins_example :
    history_from_bins test_fpu (read_back stored (bins_of (row 9))) ≡ item_of (row 9)
history_from_bins_example =
    history_from_bins-bins_of test_fpu stored (row 9) stored-IsReadBack (omega arith) (omega arith)
      (omega arith)

-- Two rows arrive, the timer goes off and its value is received, another arrives, and the loop ends.
abbrev events : List Event
events = received (row 1) ∷ received (row 2) ∷ expired ∷ ticked ∷ received (row 3) ∷ cancelled ∷ []

abbrev ended : Batch Store
ended = state_of (rounds memory (text "test") 5 events (empty_batch []))

process_batch_example : join ended.flushed ++ ended.batch ≡ rows_of events
unfolding process_batch_history rounds go_template_aerospike.Batch.round
process_batch_example =
    process_batch_history-rows memory (text "test") 5 events [] (returns ended) refl

process_batch_returns_example : join ended.flushed ≡ rows_of events
unfolding process_batch_history rounds go_template_aerospike.Batch.round
process_batch_returns_example =
    process_batch_history_returns memory (text "test") 5 events [] ended refl

process_batch_bounds_example : IsEnd 5 (returns ended)
unfolding process_batch_history rounds go_template_aerospike.Batch.round
process_batch_bounds_example =
    process_batch_history-IsEnd memory (text "test") 5 events [] (returns ended) (omega arith) refl

abbrev reader : Reader Store
reader = record {
  client = memory;
  namespace = text "test";
  fpu = test_fpu;
  max_alloc = 100000;
  sort_slice = insertion_sort;
}

abbrev rows_found : List QueryItem
rows_found = elim (memory.query (history_statement (text "test") (pos 42) true) store) [
  | recordset items ↦ items
  | _ ↦ []
]

abbrev all_items : List HistoryItem
all_items = elim (collect test_fpu rows_found) [ found items ↦ items | _ ↦ [] ]

find_by_track_id_example :
    (page : List HistoryItem) × (find_by_track_id reader (pos 42) (pos 1) store
      ≡ value (found page))
    × IsNewest (pos 1) page all_items
unfolding insert_batch_track_history memory collect make_history
    go_template_aerospike.Prelude.to_int32 go_template_aerospike.History.insert_history get
    history_record_key go_template_aerospike.Prelude.show_int
    go_template_aerospike.Aerospike.matches bins_of
find_by_track_id_example =
    find_by_track_id-IsNewest reader (pos 42) (pos 1) store rows_found all_items
      insertion_sort-IsSort refl refl refl
