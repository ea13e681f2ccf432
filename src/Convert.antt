-- ===== src/Convert.antt =====
-- `convertIpcTrackToTrack` and `getShapeStr` (internal/service/track.go). The function fills one
-- `pb.Track` from top to bottom and returns it, with an error, at the first part that is missing; a
-- nil pointer that it dereferences without a test panics.
pub mod Behaviour
use go_template_aerospike.Prelude.{
  ℤ, pos, Bytes, text, show_int, Option, none, some, List, [], ◌∷◌, ◌++◌, Checked, value, panic,
  deref, and_then, ltb_ℤ, eqb_ℤ, if◌then◌else◌,
}
use go_template_aerospike.Track.{Float32, Float64, Fpu, TrackSourceInfo, Track, zero_track}
use go_template_aerospike.Ipc.{
  AircraftProbaType, AircraftInfo, TrackInfo, GeodeticPosition, PolarVelocity, SourceTrack,
  TrackMessage,
}

pub data ConvertError : Type 0 where
  nil_id nil_aircraft_info nil_track_info nil_position nil_velocity nil_track : ConvertError

-- A part of the function: go on with the track, return it with an error, or panic.
pub data Stage : Type 0 where
  next : Track → Stage
  stop : Track → ConvertError → Stage
  crash : Stage

infixl 10 ◌then_do◌
abbrev pub ◌then_do◌ : Stage → (Track → Stage) → Stage
next t then_do f = f t
stop t e then_do f = stop t e
crash then_do f = crash

-- A panic inside a part.
abbrev pub or_crash : {A : Type 0} → Checked A → (A → Stage) → Stage
or_crash (value a) f = f a
or_crash panic f = crash

-- `if p != nil { x = *p }`
abbrev pub or_keep : {A : Type 0} → Option A → A → A
or_keep none old = old
or_keep (some a) old = a

abbrev pub fixed_wing_shape : ℤ
fixed_wing_shape = pos 1

abbrev pub rotary_wing_shape : ℤ
rotary_wing_shape = pos 2

abbrev pub unknown_wing : Bytes
unknown_wing = text "CXD"

-- `fmt.Sprintf("%s_%d", shape, probability)`
abbrev pub labelled : Bytes → ℤ → Bytes
labelled shape probability = shape ++ text "_" ++ show_int probability

unfoldable pub get_shape_str : ℤ → ℤ → Bytes
get_shape_str shape_type probability =
    if ltb_ℤ probability (pos 70)
    then unknown_wing
    else if eqb_ℤ shape_type fixed_wing_shape
    then labelled (text "Cánh Bằng") probability
    else if eqb_ℤ shape_type rotary_wing_shape
    then labelled (text "Cánh Quạt") probability
    else unknown_wing

-- float64 100 and float32 180 / π
abbrev pub hundred : Float64
hundred = 0x4059000000000000

abbrev pub degrees_per_radian : Float32
degrees_per_radian = 0x42652ee1

unfoldable pub set_id : TrackMessage → Track → Stage
set_id m t = elim m.id [
  | none ↦ stop t nil_id
  | some id ↦ next (record t { id = id; track_number = id })
]

unfoldable pub set_times : TrackMessage → Track → Track
set_times m t = record t {
  created_at = or_keep m.created_timestamp t.created_at;
  updated_at = or_keep m.last_updated_timestamp t.updated_at;
}

-- One round of the loop over `SourceTracks`: `*st.Id` and `*st.SourceInfo.Id` are not tested.
unfoldable pub source_of : Option SourceTrack → Checked TrackSourceInfo
source_of p = and_then (deref p) λ st. and_then (deref st.id) λ id.
    and_then (deref st.source_info) λ info.
      and_then (deref info.id)
        λ name. value (record { source_name = name; track_number = show_int id })

unfoldable pub sources_of : List (Option SourceTrack) → Checked (List TrackSourceInfo)
unfolding source_of
sources_of [] = value []
sources_of (p ∷ ps) = and_then (source_of p) λ s. and_then (sources_of ps) λ rest. value (s ∷ rest)

unfoldable pub set_sources : TrackMessage → Track → Stage
unfolding sources_of
set_sources m t =
    or_crash (sources_of m.source_tracks)
      λ found. next (record t { list_sources = t.list_sources ++ found })

-- `getShapeStr(int(*shapeInfo.Type), int(*shapeInfo.Proba*100))`
unfoldable pub shape_of : Fpu → AircraftProbaType → Checked Bytes
unfolding get_shape_str
shape_of fpu p = and_then (deref p.kind) λ kind.
    and_then (deref p.proba)
      λ proba. value (get_shape_str kind (fpu.int_of_float64 (fpu.mul64 proba hundred)))

unfoldable pub set_shape : Fpu → Option AircraftProbaType → Track → Stage
unfolding shape_of
set_shape fpu none t = next t
set_shape fpu (some p) t = or_crash (shape_of fpu p) λ shape. next (record t { shape = shape })

-- `AT_UNKNOWN` is 0.
unfoldable pub set_aircraft : Fpu → AircraftInfo → Track → Stage
unfolding set_shape
set_aircraft fpu a t = set_shape fpu a.type1 (record t {
  aircraft_type = some (or_keep a.aircraft_type (pos 0));
  mode3a = or_keep a.mode_3a t.mode3a;
  quantity = or_keep a.aircraft_count t.quantity;
  model = or_keep a.model t.model;
  serial = or_keep a.mode_serial t.serial;
})

-- `TI_UNKNOWN` is 0.
unfoldable pub set_identification : TrackInfo → Track → Track
set_identification info t = record t {
  quality = or_keep info.track_quality t.quality;
  identification = some (or_keep info.friend_foe_state (pos 0));
}

unfoldable pub set_info_from : Fpu → TrackInfo → Option AircraftInfo → Track → Stage
unfolding set_aircraft set_identification
set_info_from fpu info none t = stop t nil_aircraft_info
set_info_from fpu info (some a) t =
    set_aircraft fpu a t then_do λ t'. next (set_identification info t')

unfoldable pub set_info : Fpu → Option TrackInfo → Track → Stage
unfolding set_info_from
set_info fpu none t = stop t nil_track_info
set_info fpu (some info) t = set_info_from fpu info info.aircraft_info t

unfoldable pub set_position : Fpu → Option GeodeticPosition → Track → Stage
set_position fpu none t = stop t nil_position
set_position fpu (some p) t = or_crash (deref p.altitude) λ altitude.
    or_crash (deref p.longitude) λ longitude. or_crash (deref p.latitude) λ latitude.
      next (record t {
        altitude = altitude;
        longitude = fpu.mul32 longitude degrees_per_radian;
        latitude = fpu.mul32 latitude degrees_per_radian;
      })

unfoldable pub degrees : Fpu → Option Float32 → Float32 → Float32
degrees fpu none old = old
degrees fpu (some x) old = fpu.mul32 x degrees_per_radian

unfoldable pub set_velocity : Fpu → Option PolarVelocity → Track → Stage
unfolding degrees
set_velocity fpu none t = stop t nil_velocity
set_velocity fpu (some v) t =
    next (record t {
      velocity = or_keep v.speed t.velocity;
      heading = degrees fpu v.heading t.heading;
    })

unfoldable pub fill : Fpu → TrackMessage → Stage
unfolding set_id set_times set_sources set_info set_position set_velocity
fill fpu m =
    set_id m zero_track
    then_do (λ t. set_sources m (set_times m t))
    then_do set_info fpu m.track_info
    then_do set_position fpu m.geodetic_position
    then_do set_velocity fpu m.polar_velocity

abbrev pub finish : Stage → Checked (Track × Option ConvertError)
finish (next t) = value (t, none)
finish (stop t e) = value (t, some e)
finish crash = panic

unfoldable pub convert : Fpu → Option TrackMessage → Checked (Track × Option ConvertError)
unfolding fill
convert fpu none = value (zero_track, some nil_track)
convert fpu (some m) = finish (fill fpu m)
