-- ===== src/Pipeline.antt =====
-- From a track message to the history that is queried: the handler (internal/service/track.go), the batch
-- loop and the database (internal/service/track_history.go) together.
use go_template_aerospike.Prelude.{
  ◌<◌, ℕ, ℤ, pos, Bytes, eq_bytes_refl, eqb_ℤ_refl, true, false, Option, some, List, [], ◌∷◌, ◌++◌,
  ◌≡◌, refl, sym, ap, ◌∙◌, arith, length, map, lookup, returned, value,
}
use go_template_aerospike.Track.{Track, TrackHistory}
use go_template_aerospike.Aerospike.{
  Key, Fields, merge, has_error, bin, eq_key_iff, matches, matched, names, QueryItem, recordset,
  IsFaithful,
}
use go_template_aerospike.Convert.{ConvertError, convert}
use go_template_aerospike.Convert.Behaviour.{identification_of}
use go_template_aerospike.History.{history_key, bins_of, history_statement}
use go_template_aerospike.History.Writes.{last_row, shadowed}
use go_template_aerospike.Service.{Any, World, Service, channel_capacity}
use go_template_aerospike.Tracks.{process_ipc_track_update}
use go_template_aerospike.Tracks.Update.{row_at, process_ipc_track_update_lem}
use go_template_aerospike.Batch.{Batch, Event, returns, process_batch_history}
use go_template_aerospike.Batch.Laws.{rows_of}
use go_template_aerospike.Batch.Stored.{IsWritable, process_batch_history-stored}

-- A row at the end of a batch is the last one with its key.
last_row-last :
    (namespace : Bytes) (h : TrackHistory) (l : List TrackHistory)
    → last_row namespace (history_key namespace h) (map some (l ++ h ∷ [])) ≡ some h
unfolding last_row
last_row-last namespace h [] =
    ground (arith, (eq_key_iff (history_key namespace h) (history_key namespace h)).1 refl)
last_row-last namespace h (x ∷ l) = rw (last_row-last namespace h l) refl

-- The query for a row's track asks for the row.
matches-bins_of :
    (namespace : Bytes) (h : TrackHistory) (old : Option Fields)
    → matches
        (history_statement namespace h.track_id true)
        (history_key namespace h)
        (merge (bins_of h) old)
      ≡ true
unfolding matches bins_of bin
matches-bins_of namespace h old = ground (arith, eq_bytes_refl namespace, eqb_ℤ_refl h.track_id)

-- A message that the conversion takes with an identification, whose track can be encoded, while the
-- history channel has room: the handler returns, the map holds the track, and its row is queued behind
-- the rows that wait. Once the batch loop has received these rows and returned, with every write succeeding, the
-- database has the bins of the track's state at that time under the row's key, over those that it had, and
-- the query for the track's history names that key if its result set carries no error.
pub process_batch_history-process_ipc_track_update :
    {Db : Type 0} (w : World Db) (get : Key → Db → Option Fields) (now : ℤ) (detail : Option Any)
    (t : Track) (e : Option ConvertError) (payload : Bytes) (i : ℤ) (s : Service Db) (n : ℕ)
    (es : List Event) (db : Db) (b : Batch Db) (items : List QueryItem)
    → convert w.fpu (some (w.unmarshal_track_message detail)) ≡ value (t, e)
    → identification_of (w.unmarshal_track_message detail) ≡ some i
    → w.marshal_track t ≡ some payload
    → length s.history_ch < channel_capacity
    → IsFaithful w.client get
    → IsWritable w.client w.namespace
    → rows_of es ≡ s.history_ch ++ row_at now t i ∷ []
    → process_batch_history w.client w.namespace (pos n) es db ≡ value (returns b)
    → w.client.query (history_statement w.namespace t.id true) b.db ≡ recordset items
    → has_error items ≡ false
    → (s' : Service Db) × (process_ipc_track_update w now detail s ≡ returned tt s')
      × (lookup t.id s'.track_map ≡ some (some t))
      × (s'.history_ch ≡ rows_of es)
      × (get (history_key w.namespace (row_at now t i)) b.db
          ≡ some (
              merge (bins_of (row_at now t i)) (get (history_key w.namespace (row_at now t i)) db)))
      × (names (history_key w.namespace (row_at now t i)) items ≡ true)
process_batch_history-process_ipc_track_update w get now detail t e payload i s n es db b items c hi
      m room faithful writable rows loop asked fine =
    let (s', done, map_set, queued) =
      process_ipc_track_update_lem w now detail t e payload i s c hi m room in
    let row = row_at now t i in
    let key = history_key w.namespace row in
    let stored =
      process_batch_history-stored w.client get w.namespace n es db b key faithful writable loop
      ∙ ap (λ l. shadowed (last_row w.namespace key (map some l)) (get key db)) rows
      ∙ ap (λ o. shadowed o (get key db)) (last_row-last w.namespace row s.history_ch) in
    let q = history_statement w.namespace t.id true in
    (
      s',
      done,
      map_set t.id ∙ ground (arith, eqb_ℤ_refl t.id),
      queued ∙ sym rows,
      stored,
      faithful.query_exact q b.db items key asked fine
          ∙ ap (matched q key) stored
          ∙ matches-bins_of w.namespace row (get key db),
    )
