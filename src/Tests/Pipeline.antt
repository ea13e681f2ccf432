-- ===== src/Tests/Pipeline.antt =====
-- A message on its way to the history.
use go_template_aerospike.Prelude.{
  ◌<◌, pos, text, show_int, true, none, some, List, [], ◌∷◌, ◌++◌, ◌≡◌, refl, arith, length, lookup,
  returned,
}
use go_template_aerospike.Aerospike.{QueryItem, recordset, names, merge, has_error}
use go_template_aerospike.Aerospike.Memory.{Store, memory, get, memory-IsFaithful}
use go_template_aerospike.History.{history_key, bins_of, history_statement, history_record_key}
use go_template_aerospike.Service.{Service, new_service, channel_capacity}
use go_template_aerospike.Tracks.{process_ipc_track_update}
use go_template_aerospike.Tracks.Update.{row_at}
use go_template_aerospike.Batch.{
  Batch, Event, received, cancelled, rounds, round, empty_batch, process_batch_history,
}
use go_template_aerospike.Batch.Laws.{rows_of, state_of}
use go_template_aerospike.Batch.Stored.{IsWritable}
use go_template_aerospike.Pipeline.{process_batch_history-process_ipc_track_update}
use go_template_aerospike.Tests.Messages.{any, world, start, jet_track, converted}

abbrev events : List Event
events = received (row_at (pos 9) jet_track (pos 2)) ∷ cancelled ∷ []

abbrev ended : Batch Store
ended = state_of (rounds memory (text "test") 5 events (empty_batch []))

abbrev items : List QueryItem
items = elim (memory.query (history_statement (text "test") (pos 42) true) ended.db) [
  | recordset l ↦ l
  | _ ↦ []
]

room : length start.history_ch < channel_capacity
unfolding new_service
room = ground arith

writable : IsWritable memory (text "test")
unfolding go_template_aerospike.History.insert_history memory
writable h db = refl

queued : rows_of events ≡ start.history_ch ++ row_at (pos 9) jet_track (pos 2) ∷ []
unfolding new_service
queued = refl

pipeline_example :
    (s' : Service Store) × (process_ipc_track_update world (pos 9) (some any) start
      ≡ returned tt s')
    × (lookup (pos 42) s'.track_map ≡ some (some jet_track))
    × (s'.history_ch ≡ rows_of events)
    × (get (history_key (text "test") (row_at (pos 9) jet_track (pos 2))) ended.db
        ≡ some (
            merge
              (bins_of (row_at (pos 9) jet_track (pos 2)))
              (get (history_key (text "test") (row_at (pos 9) jet_track (pos 2))) [])))
    × (names (history_key (text "test") (row_at (pos 9) jet_track (pos 2))) items ≡ true)
unfolding process_batch_history rounds round memory get history_record_key bins_of
    go_template_aerospike.Batch.flush go_template_aerospike.Batch.append_row
    go_template_aerospike.History.insert_batch_track_history
    go_template_aerospike.History.insert_history show_int go_template_aerospike.Aerospike.matches
    has_error go_template_aerospike.Aerospike.bin
pipeline_example =
    process_batch_history-process_ipc_track_update world get (pos 9) (some any) jet_track none
      (show_int (pos 42)) (pos 2) start 5 events [] ended items converted refl refl room
      memory-IsFaithful writable queued refl refl refl
