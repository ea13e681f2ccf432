-- ===== src/History.antt =====
-- The history of tracks in Aerospike (internal/service/track_history.go): the row of a track, its
-- key and bins, writing a batch, deleting and finding the rows of a track. `ProcessBatchHistory` is
-- in Batch.antt.
pub mod Rows
pub mod Deletion
pub mod Writes
pub mod Reading
use go_template_aerospike.Prelude.{
  ℕ, ℤ, pos, Bytes, text, show_int, to_int32, to_int64, Bool, true, false, Option, none, some, List,
  [], ◌∷◌, ◌++◌, Checked, value, panic, and_then, deref, if◌then◌else◌, ltb, leb, ltb_ℤ, negsuc,
  zero, suc, length, take, ◌*◌,
}
use go_template_aerospike.Track.{Float32, Fpu, Track, TrackHistory, HistoryItem}
use go_template_aerospike.Aerospike.{
  BinValue, nil_value, int, int8, int16, int32, int64, uint8, uint16, uint32, uint64, float32,
  float64, other, Bins, bin, Key, AsError, key_not_found, index_found, other_code, QueryItem,
  item_error, item, Statement, query_error, recordset, Client, WritePolicy,
}

abbrev pub track_history_set : Bytes
track_history_set = text "track_history"

abbrev pub track_id_bin : Bytes
track_id_bin = text "track_id"

-- The object that `CreateTrackHistory` queues. `*track.Identification` is not tested for nil.
unfoldable pub history_of : ℤ → Track → Checked TrackHistory
history_of now t = and_then (deref t.identification) λ identification. value (record {
  track_id = t.id;
  track_number = t.track_number;
  altitude = t.altitude;
  latitude = t.latitude;
  longitude = t.longitude;
  heading = t.heading;
  velocity = t.velocity;
  identification = identification;
  created_at = now;
})

-- `fmt.Sprintf("%d:%d", trackID, createdAt)`
unfoldable pub history_record_key : ℤ → ℤ → Bytes
history_record_key track_id created_at = show_int track_id ++ b':' ∷ show_int created_at

-- The conversions int64(int32) keep the value.
unfoldable pub bins_of : TrackHistory → Bins
bins_of h =
    (track_id_bin, int64 h.track_id)
    ∷ (text "track_num", int64 h.track_number)
    ∷ (text "altitude", float32 h.altitude)
    ∷ (text "latitude", float32 h.latitude)
    ∷ (text "longitude", float32 h.longitude)
    ∷ (text "velocity", float32 h.velocity)
    ∷ (text "heading", float32 h.heading)
    ∷ (text "ident", int64 h.identification)
    ∷ (text "created_at", int64 h.created_at)
    ∷ []

abbrev int64_of : Fpu → BinValue → ℤ
int64_of fpu (int v) = v
int64_of fpu (int8 v) = v
int64_of fpu (int16 v) = v
int64_of fpu (int32 v) = v
int64_of fpu (int64 v) = v
int64_of fpu (uint8 v) = v
int64_of fpu (uint16 v) = v
int64_of fpu (uint32 v) = v
int64_of fpu (uint64 v) = to_int64 v
int64_of fpu (float32 v) = fpu.int_of_float32 v
int64_of fpu (float64 v) = fpu.int_of_float64 v
int64_of fpu nil_value = pos 0
int64_of fpu other = pos 0

unfoldable pub read_int64_bin : Fpu → Bins → Bytes → ℤ
unfolding bin to_int64
read_int64_bin fpu bins name = elim (bin name bins) [ none ↦ pos 0 | some v ↦ int64_of fpu v ]

abbrev float32_of : Fpu → BinValue → Float32
float32_of fpu (float32 v) = v
float32_of fpu (float64 v) = fpu.narrow v
float32_of fpu (int v) = fpu.float32_of_int v
float32_of fpu (int8 v) = fpu.float32_of_int v
float32_of fpu (int16 v) = fpu.float32_of_int v
float32_of fpu (int32 v) = fpu.float32_of_int v
float32_of fpu (int64 v) = fpu.float32_of_int v
float32_of fpu (uint8 v) = fpu.float32_of_int v
float32_of fpu (uint16 v) = fpu.float32_of_int v
float32_of fpu (uint32 v) = fpu.float32_of_int v
float32_of fpu (uint64 v) = fpu.float32_of_int v
float32_of fpu nil_value = 0
float32_of fpu other = 0

unfoldable pub read_float32_bin : Fpu → Bins → Bytes → Float32
unfolding bin
read_float32_bin fpu bins name = elim (bin name bins) [ none ↦ 0 | some v ↦ float32_of fpu v ]

-- The error that `historyFromBins` returns is always nil.
unfoldable pub history_from_bins : Fpu → Bins → HistoryItem
unfolding read_int64_bin read_float32_bin
history_from_bins fpu bins = record {
  track_id = to_int32 (read_int64_bin fpu bins track_id_bin);
  track_number = to_int32 (read_int64_bin fpu bins (text "track_num"));
  altitude = read_float32_bin fpu bins (text "altitude");
  latitude = read_float32_bin fpu bins (text "latitude");
  longitude = read_float32_bin fpu bins (text "longitude");
  velocity = read_float32_bin fpu bins (text "velocity");
  identification = to_int32 (read_int64_bin fpu bins (text "ident"));
  created_at = read_int64_bin fpu bins (text "created_at");
}

abbrev pub history_key : Bytes → TrackHistory → Key
history_key namespace h = record {
  namespace = namespace;
  set_name = track_history_set;
  user_key = history_record_key h.track_id h.created_at;
}

-- The filter of `queryTrackHistoryByTrackID`.
abbrev pub history_statement : Bytes → ℤ → Bool → Statement
history_statement namespace track_id include_bins = record {
  namespace = namespace;
  set_name = track_history_set;
  bin_name = track_id_bin;
  bin_value = track_id;
  include_bins = include_bins;
}

abbrev pub write_policy : WritePolicy
write_policy = record { generation = 0; expiration = 0; send_key = true }

abbrev pub delete_policy : WritePolicy
delete_policy = record { generation = 0; expiration = 0; send_key = false }

module _ {Db : Type 0} (client : Client Db) (namespace : Bytes) where
  -- One round of the loop of `InsertBatchTrackHistory`.
  unfoldable pub insert_history : TrackHistory → Db → Option AsError × Db
  insert_history h db = elim (client.new_key (history_key namespace h)) [
    | some e ↦ (some e, db)
    | none ↦ client.put_bins write_policy (history_key namespace h) (bins_of h) db
  ]

  -- A nil item is skipped; the first error ends the loop, and what was written stays.
  unfoldable pub insert_batch_track_history : List (Option TrackHistory) → Db → Option AsError × Db
  insert_batch_track_history [] db = (none, db)
  insert_batch_track_history (none ∷ batch) db = insert_batch_track_history batch db
  insert_batch_track_history (some h ∷ batch) db =
      let (failed, db') = insert_history h db in
      elim failed [ none ↦ insert_batch_track_history batch db' | some e ↦ (some e, db') ]

  -- `err != nil && !err.Matches(KEY_NOT_FOUND_ERROR)`
  abbrev pub tolerated : Option AsError → Option AsError
  tolerated none = none
  tolerated (some key_not_found) = none
  tolerated (some index_found) = some index_found
  tolerated (some (other_code n)) = some (other_code n)

  unfoldable pub delete_key : Option Key → Db → Option AsError × Db
  delete_key none db = (none, db)
  delete_key (some k) db =
      let (failed, db') = client.delete delete_policy k db in (tolerated failed, db')

  -- The loop of `DeleteTrackHistory` over its result set.
  unfoldable pub delete_rows : List QueryItem → Db → Option AsError × Db
  delete_rows [] db = (none, db)
  delete_rows (item_error e ∷ rest) db = (some e, db)
  delete_rows (item none ∷ rest) db = delete_rows rest db
  delete_rows (item (some row) ∷ rest) db =
      let (failed, db') = delete_key row.key db in
      elim failed [ none ↦ delete_rows rest db' | some e ↦ (some e, db') ]

  unfoldable pub delete_track_history : ℤ → Db → Option AsError × Db
  delete_track_history track_id db =
      elim (client.query (history_statement namespace track_id false) db) [
        | query_error e ↦ (some e, db)
        | recordset items ↦ delete_rows items db
      ]

-- What `FindByTrackId` collects from its result set, in its order, or the first error.
pub data Collected : Type 0 where
  found : List HistoryItem → Collected
  failed_with : AsError → Collected

abbrev pub prepend : HistoryItem → Collected → Collected
prepend h (found hs) = found (h ∷ hs)
prepend h (failed_with e) = failed_with e

unfoldable pub collect : Fpu → List QueryItem → Collected
unfolding history_from_bins
collect fpu [] = found []
collect fpu (item_error e ∷ rest) = failed_with e
collect fpu (item none ∷ rest) = collect fpu rest
collect fpu (item (some row) ∷ rest) = prepend (history_from_bins fpu row.bins) (collect fpu rest)

-- `result[i].CreatedAt > result[j].CreatedAt`
abbrev pub is_newer : HistoryItem → HistoryItem → Bool
is_newer a b = ltb_ℤ b.created_at a.created_at

-- `if numOfHistory > 0 && len(result) > numOfHistory { result = result[:numOfHistory] }`
unfoldable pub newest : ℤ → List HistoryItem → List HistoryItem
newest (pos zero) items = items
newest (pos (suc n)) items = if ltb (suc n) (length items) then take (suc n) items else items
newest (negsuc n) items = items

-- `make([]httpmodel.TrackHistory, 0, n)` panics on a negative capacity, and on one whose items do
-- not fit the address space; an item has 40 bytes.
unfoldable pub make_history : ℕ → ℤ → Checked (List HistoryItem)
make_history max_alloc (pos n) = if leb (40 * n) max_alloc then value [] else panic
make_history max_alloc (negsuc n) = panic

-- What `FindByTrackId` takes from outside: the database, the floating-point unit, `sort.Slice`, and
-- the runtime's limit on an allocation.
pub record Reader (Db : Type 0) : Type 0 where
  pub client : Client Db
  pub namespace : Bytes
  pub fpu : Fpu
  pub max_alloc : ℕ
  pub sort_slice : (HistoryItem → HistoryItem → Bool) → List HistoryItem → List HistoryItem

unfoldable pub sorted_newest : {Db : Type 0} → Reader Db → ℤ → Collected → Collected
unfolding newest
sorted_newest r num_of_history (failed_with e) = failed_with e
sorted_newest r num_of_history (found items) =
    found (newest num_of_history (r.sort_slice is_newer items))

unfoldable pub find_by_track_id : {Db : Type 0} → Reader Db → ℤ → ℤ → Db → Checked Collected
unfolding collect make_history sorted_newest
find_by_track_id r track_id num_of_history db =
    elim (r.client.query (history_statement r.namespace (to_int32 track_id) true) db) [
      | query_error e ↦ value (failed_with e)
      | recordset items ↦
          and_then (make_history r.max_alloc num_of_history)
            λ empty. value (sorted_newest r num_of_history (collect r.fpu items))
    ]
