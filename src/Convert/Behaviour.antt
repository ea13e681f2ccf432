-- ===== src/Convert/Behaviour.antt =====
-- What `convertIpcTrackToTrack` (internal/service/track.go) returns: which messages are refused and
-- why, which messages cannot panic, and what stands in the track.
use go_template_aerospike.Prelude.{
  ℕ, ℤ, pos, ◌≡◌, ◌≢◌, refl, ap, arith, Option, none, some, List, [], ◌∷◌, ◌⊎◌, inl, inr, Checked,
  value, panic, All,
}
use go_template_aerospike.Track.{Fpu, Track}
use go_template_aerospike.Ipc.{
  AircraftProbaType, AircraftInfo, TrackInfo, GeodeticPosition, PolarVelocity, SourceInfo,
  SourceTrack, TrackMessage,
}
use go_template_aerospike.Convert.{
  ConvertError, nil_id, nil_aircraft_info, nil_track_info, nil_position, nil_velocity, or_keep,
  sources_of, source_of, degrees_per_radian, convert,
}

abbrev aircraft_of : Option TrackInfo → Option AircraftInfo
aircraft_of none = none
aircraft_of (some info) = info.aircraft_info

abbrev first_missing :
    Option ℤ
    → Option TrackInfo
    → Option AircraftInfo
    → Option GeodeticPosition
    → Option PolarVelocity
    → Option ConvertError
first_missing none _ _ _ _ = some nil_id
first_missing (some _) none _ _ _ = some nil_track_info
first_missing (some _) (some _) none _ _ = some nil_aircraft_info
first_missing (some _) (some _) (some _) none _ = some nil_position
first_missing (some _) (some _) (some _) (some _) none = some nil_velocity
first_missing (some _) (some _) (some _) (some _) (some _) = none

-- The first mandatory part that a message lacks.
abbrev pub missing : TrackMessage → Option ConvertError
missing m =
    first_missing m.id m.track_info (aircraft_of m.track_info) m.geodetic_position m.polar_velocity

-- The error is the first mandatory part that the message lacks, and nil if it lacks none, whenever
-- the conversion returns.
pub error-convert :
    (fpu : Fpu) (m : TrackMessage) (t : Track) (e : Option ConvertError)
    → convert fpu (some m) ≡ value (t, e)
    → e ≡ missing m
unfolding convert
error-convert fpu m t e h = ground arith

-- The identification of a message: 0 where the state is not given; none where the conversion stops
-- before it is set.
abbrev pub identified : Option ℤ → Option TrackInfo → Option AircraftInfo → Option ℤ
identified none _ _ = none
identified (some _) none _ = none
identified (some _) (some _) none = none
identified (some _) (some info) (some _) = some (or_keep info.friend_foe_state (pos 0))

abbrev pub identification_of : TrackMessage → Option ℤ
identification_of m = identified m.id m.track_info (aircraft_of m.track_info)

-- The returned track has an identification exactly if the message has an id, a track info and an
-- aircraft info, also where the conversion returns an error: it is then that of the message, or 0.
pub identification-convert :
    (fpu : Fpu) (m : TrackMessage) (t : Track) (e : Option ConvertError)
    → convert fpu (some m) ≡ value (t, e)
    → t.identification ≡ identification_of m
unfolding convert
identification-convert fpu m t e h = ground arith

-- The track has the id of the message, or 0 where that is missing.
pub id-convert :
    (fpu : Fpu) (m : TrackMessage) (t : Track) (e : Option ConvertError)
    → convert fpu (some m) ≡ value (t, e)
    → (t.id ≡ or_keep m.id (pos 0)) × (t.track_number ≡ t.id)
unfolding convert
id-convert fpu m t e h = ground arith

-- A conversion without error, of a message whose position has a longitude and a latitude, takes over the
-- id, the altitude, the position in degrees, the speed, the times, the identification, the quality and
-- the aircraft's data, each of the optional ones with its default where the message has none.
pub convert_lem :
    (fpu : Fpu) (m : TrackMessage) (t : Track) (p : GeodeticPosition) (long lat : ℕ)
    (v : PolarVelocity) (info : TrackInfo) (a : AircraftInfo)
    → convert fpu (some m) ≡ value (t, none)
    → m.geodetic_position ≡ some p
    → p.longitude ≡ some long
    → p.latitude ≡ some lat
    → m.polar_velocity ≡ some v
    → m.track_info ≡ some info
    → info.aircraft_info ≡ some a
    → ((m.id ≡ some t.id)
        × (p.altitude ≡ some t.altitude)
        × (t.longitude ≡ fpu.mul32 long degrees_per_radian)
        × (t.latitude ≡ fpu.mul32 lat degrees_per_radian)
        × (t.velocity ≡ or_keep v.speed 0)
        × (t.created_at ≡ or_keep m.created_timestamp (pos 0))
        × (t.updated_at ≡ or_keep m.last_updated_timestamp (pos 0)))
      × ((t.aircraft_type ≡ some (or_keep a.aircraft_type (pos 0)))
          × (t.identification ≡ some (or_keep info.friend_foe_state (pos 0)))
          × (t.quantity ≡ or_keep a.aircraft_count (pos 0))
          × (t.mode3a ≡ or_keep a.mode_3a [])
          × (t.model ≡ or_keep a.model [])
          × (t.serial ≡ or_keep a.mode_serial [])
          × (t.quality ≡ or_keep info.track_quality (pos 0)))
unfolding convert
convert_lem fpu m t p long lat v info a h hp hl ha hv hi hj = ground arith

abbrev HasName : Option SourceInfo → Type 0
HasName none = ⊥
HasName (some info) = info.id ≢ none

abbrev IsSourceSafe : Option SourceTrack → Type 0
IsSourceSafe none = ⊥
IsSourceSafe (some st) = (st.id ≢ none) × HasName st.source_info

abbrev IsShapeSafe : Option AircraftProbaType → Type 0
IsShapeSafe none = Unit
IsShapeSafe (some p) = (p.kind ≢ none) × (p.proba ≢ none)

abbrev IsAircraftSafe : Option AircraftInfo → Type 0
IsAircraftSafe none = Unit
IsAircraftSafe (some a) = IsShapeSafe a.type1

abbrev IsPositionSafe : Option GeodeticPosition → Type 0
IsPositionSafe none = Unit
IsPositionSafe (some p) = (p.altitude ≢ none) × (p.longitude ≢ none) × (p.latitude ≢ none)

-- The pointers that the conversion dereferences without a test are set.
abbrev pub IsSafe : TrackMessage → Type 0
IsSafe m =
    All IsSourceSafe m.source_tracks
    × IsAircraftSafe (aircraft_of m.track_info)
    × IsPositionSafe m.geodetic_position

pub Checked-cases : {A : Type 0} (c : Checked A) → (c ≡ panic) ⊎ ((a : A) × (c ≡ value a))
Checked-cases (value a) = inr (a, refl)
Checked-cases panic = inl refl

source_of-ne-panic : (p : Option SourceTrack) → IsSourceSafe p → source_of p ≢ panic
unfolding source_of
source_of-ne-panic p h e = ground arith

sources_of-ne-panic : (ps : List (Option SourceTrack)) → All IsSourceSafe ps → sources_of ps ≢ panic
unfolding sources_of
sources_of-ne-panic [] h e = ground arith
sources_of-ne-panic (p ∷ ps) (h, hs) e =
    ground (arith, source_of-ne-panic p h, sources_of-ne-panic ps hs)

convert-ne-panic : (fpu : Fpu) (m : TrackMessage) → IsSafe m → convert fpu (some m) ≢ panic
unfolding convert
convert-ne-panic fpu m h e = ground (arith, sources_of-ne-panic m.source_tracks h.0)

-- If the pointers that are dereferenced without a test are set (each source track with its id and
-- source name, both fields of a shape, the three of a position), the conversion does not panic: it
-- returns a track, and the first missing part as its error.
pub convert_total :
    (fpu : Fpu) (m : TrackMessage)
    → IsSafe m
    → (t : Track) × (convert fpu (some m) ≡ value (t, missing m))
convert_total fpu m h = elim (Checked-cases (convert fpu (some m))) [
  | inl p ↦ absurd (convert-ne-panic fpu m h p)
  | inr (r, p) ↦ let (t, e) = r in (t, rw p (ap (λ x. value (t, x)) (error-convert fpu m t e p)))
]
