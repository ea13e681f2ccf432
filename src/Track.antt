-- ===== src/Track.antt =====
-- The track records: `Track`, `TrackSourceInfo` (pkg/pb/Track.pb.go), `TrackHistory` and `Track` of
-- internal/model/dbmodel/track.go, the history row and the list replies of
-- internal/model/httpmodel/track.go. Floats are their IEEE 754 bit patterns; the zero value of a
-- float is the pattern 0. Optional proto fields are `Option`.
use go_template_aerospike.Prelude.{ℕ, ℤ, pos, Bytes, Option, none, List, []}

abbrev pub Float32 : Type 0
Float32 = ℕ

abbrev pub Float64 : Type 0
Float64 = ℕ

-- The floating-point operations that the service uses, those of the processor.
pub record Fpu : Type 0 where
  -- the product of two float32
  pub mul32 : Float32 → Float32 → Float32
  -- the product of two float64
  pub mul64 : Float64 → Float64 → Float64
  -- int(x), int64(x)
  pub int_of_float64 : Float64 → ℤ
  pub int_of_float32 : Float32 → ℤ
  -- float64(x), float32(x)
  pub widen : Float32 → Float64
  pub narrow : Float64 → Float32
  pub float32_of_int : ℤ → Float32

pub record TrackSourceInfo : Type 0 where
  pub source_name : Bytes
  pub track_number : Bytes

pub record Track : Type 0 where
  pub id : ℤ
  pub track_number : ℤ
  pub altitude : Float32
  pub latitude : Float32
  pub longitude : Float32
  pub aircraft_type : Option ℤ
  pub identification : Option ℤ
  pub quantity : ℤ
  pub model : Bytes
  pub velocity : Float32
  pub heading : Float32
  pub quality : ℤ
  pub list_sources : List TrackSourceInfo
  pub primary_source : Option TrackSourceInfo
  pub mode3a : Bytes
  pub serial : Bytes
  pub shape : Bytes
  pub alert : Option ℤ
  pub created_at : ℤ
  pub updated_at : ℤ

-- `&pb.Track{}`
abbrev pub zero_track : Track
zero_track = record {
  id = pos 0;
  track_number = pos 0;
  altitude = 0;
  latitude = 0;
  longitude = 0;
  aircraft_type = none;
  identification = none;
  quantity = pos 0;
  model = [];
  velocity = 0;
  heading = 0;
  quality = pos 0;
  list_sources = [];
  primary_source = none;
  mode3a = [];
  serial = [];
  shape = [];
  alert = none;
  created_at = pos 0;
  updated_at = pos 0;
}

-- `dbmodel.Track`
pub record TrackRow : Type 0 where
  pub track_id : ℤ
  pub track_number : ℤ
  pub altitude : Float32
  pub latitude : Float32
  pub longitude : Float32
  pub aircraft_type : ℤ
  pub identification : ℤ
  pub quantity : ℤ
  pub model : Bytes
  pub velocity : Float32
  pub heading : Float32
  pub quality : ℤ
  pub mode3a : Bytes
  pub created_at : ℤ
  pub updated_at : ℤ

-- `dbmodel.TrackHistory`
pub record TrackHistory : Type 0 where
  pub track_id : ℤ
  pub track_number : ℤ
  pub altitude : Float32
  pub latitude : Float32
  pub longitude : Float32
  pub heading : Float32
  pub velocity : Float32
  pub identification : ℤ
  pub created_at : ℤ

-- `httpmodel.TrackHistory`: the heading is not among the fields that clients get.
pub record HistoryItem : Type 0 where
  pub track_id : ℤ
  pub track_number : ℤ
  pub altitude : Float32
  pub latitude : Float32
  pub longitude : Float32
  pub velocity : Float32
  pub identification : ℤ
  pub created_at : ℤ

-- `httpmodel.TracksListData` and `httpmodel.TrackHistoriesListData`
pub record ListData (Item : Type 0) : Type 0 where
  pub items : List Item
  pub limit : ℤ
  pub offset : ℤ
  pub total : ℤ

-- `httpmodel.TracksListResponse`, `TrackHistoriesListResponse`, and `TrackResponse`
pub record Response (Payload : Type 0) : Type 0 where
  pub code : Bytes
  pub payload : Payload
  pub message : Bytes
