-- ===== src/Ipc.antt =====
-- The messages that the IPC bus delivers (pkg/pb/ipc): every proto3 optional field is a pointer, so
-- an `Option`. Fields that the service never reads are left out.
use go_template_aerospike.Prelude.{ℤ, Bytes, Option, List}
use go_template_aerospike.Track.{Float32, Float64}

-- `AircraftProbaType`
pub record AircraftProbaType : Type 0 where
  pub kind : Option ℤ
  pub proba : Option Float64

pub record AircraftInfo : Type 0 where
  pub mode_3a : Option Bytes
  pub aircraft_type : Option ℤ
  pub aircraft_count : Option ℤ
  pub model : Option Bytes
  pub mode_serial : Option Bytes
  pub type1 : Option AircraftProbaType

pub record TrackInfo : Type 0 where
  pub friend_foe_state : Option ℤ
  pub aircraft_info : Option AircraftInfo
  pub track_quality : Option ℤ

pub record GeodeticPosition : Type 0 where
  pub longitude : Option Float32
  pub latitude : Option Float32
  pub altitude : Option Float32

pub record PolarVelocity : Type 0 where
  pub speed : Option Float32
  pub heading : Option Float32

pub record SourceInfo : Type 0 where
  pub id : Option Bytes

-- A source track is itself a `TrackMessage`; these are the two of its fields that are read.
pub record SourceTrack : Type 0 where
  pub id : Option ℤ
  pub source_info : Option SourceInfo

pub record TrackMessage : Type 0 where
  pub id : Option ℤ
  pub track_info : Option TrackInfo
  pub geodetic_position : Option GeodeticPosition
  pub polar_velocity : Option PolarVelocity
  pub created_timestamp : Option ℤ
  pub last_updated_timestamp : Option ℤ
  -- a slice of pointers
  pub source_tracks : List (Option SourceTrack)
