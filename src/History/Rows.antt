-- ===== src/History/Rows.antt =====
-- The key and the bins of a history row (internal/service/track_history.go): different rows have
-- different keys, and what is written is read back.
use go_template_aerospike.Prelude.{
  ℤ, [], ◌∷◌, ◌≡◌, IsInt32, IsInt64, to_int32_id, Int32-IsInt64, show_int-injective, show_int-Lacks,
  split_unique,
}
use go_template_aerospike.Track.{Float32, Fpu, TrackHistory, HistoryItem}
use go_template_aerospike.Aerospike.{BinValue, int, int64, float32, float64, Bins}
use go_template_aerospike.History.{history_record_key, bins_of, history_from_bins}

-- Two int32 ids and int64 times with the same record key are equal: rows of different tracks, or of
-- one track at different milliseconds, never overwrite one another.
pub history_record_key-injective :
    (track_id created_at track_id' created_at' : ℤ)
    → IsInt32 track_id
    → IsInt64 created_at
    → IsInt32 track_id'
    → IsInt64 created_at'
    → history_record_key track_id created_at ≡ history_record_key track_id' created_at'
    → (track_id ≡ track_id') × (created_at ≡ created_at')
unfolding history_record_key
history_record_key-injective i c i' c' hi hc hi' hc' e =
    let (same, same') = split_unique b':' _ _ _ _ (show_int-Lacks i) (show_int-Lacks i') e in
    (
      show_int-injective i i' (Int32-IsInt64 i hi) (Int32-IsInt64 i' hi') same,
      show_int-injective c c' hc hc' same',
    )

-- What the client returns for a value that was written: an integer as Go's int, a float32 as the
-- float64 that it is stored as, and the conversion back is exact.
pub record IsReadBack (fpu : Fpu) (stored : BinValue → BinValue) : Type 0 where
  pub integers : (v : ℤ) → stored (int64 v) ≡ int v
  pub floats : (x : Float32) → stored (float32 x) ≡ float64 (fpu.widen x)
  pub narrow-widen : (x : Float32) → fpu.narrow (fpu.widen x) ≡ x

abbrev pub read_back : (BinValue → BinValue) → Bins → Bins
read_back stored [] = []
read_back stored ((n, v) ∷ bins) = (n, stored v) ∷ read_back stored bins

-- The row without its heading.
abbrev pub item_of : TrackHistory → HistoryItem
item_of h = record {
  track_id = h.track_id;
  track_number = h.track_number;
  altitude = h.altitude;
  latitude = h.latitude;
  longitude = h.longitude;
  velocity = h.velocity;
  identification = h.identification;
  created_at = h.created_at;
}

-- The bins written for a row whose integers are int32 are read back as that row, all fields but the
-- heading, which is written and never read.
pub history_from_bins-bins_of :
    (fpu : Fpu) (stored : BinValue → BinValue) (h : TrackHistory)
    → IsReadBack fpu stored
    → IsInt32 h.track_id
    → IsInt32 h.track_number
    → IsInt32 h.identification
    → history_from_bins fpu (read_back stored (bins_of h)) ≡ item_of h
unfolding history_from_bins bins_of
history_from_bins-bins_of fpu stored h back hi hn hf =
    simp (back.integers, back.floats)
      (simp (
        back.narrow-widen,
        to_int32_id h.track_id hi,
        to_int32_id h.track_number hn,
        to_int32_id h.identification hf,
      ))
