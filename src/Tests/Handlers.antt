-- ===== src/Tests/Handlers.antt =====
-- The conversion and the handlers on concrete messages.
use mathlib.Core.List.Perm
use go_template_aerospike.Prelude.{
  ℕ, zero, suc, ◌<◌, ℤ, pos, eqb_ℤ, show_int, not, ◌&&◌, none, some, List, [], ◌∷◌, ◌++◌, ◌≡◌, refl,
  arith, length, if◌then◌else◌, lookup, keys, returned, panicked, final, value, panic,
}
use go_template_aerospike.Track.{Track, TrackHistory}
use go_template_aerospike.Convert.{convert}
use go_template_aerospike.Convert.Behaviour.{missing, convert_total}
use go_template_aerospike.Aerospike.Memory.{Store}
use go_template_aerospike.Service.{Service, new_service, channel_capacity}
use go_template_aerospike.Tracks.{
  diff_array, process_ipc_track_update, process_ipc_track_remove, process_ipc_track_statistic,
  get_all_track_ids, remove_missing,
}
use go_template_aerospike.Tracks.Keys.{contains}
use go_template_aerospike.Tracks.Update.{
  row_at, process_ipc_track_update_lem, process_ipc_track_update_panics,
}
use go_template_aerospike.Tracks.Removal.{encodable, forgotten, process_ipc_track_remove_lem}
use go_template_aerospike.Tracks.Statistic.{
  IsRange, lookup-statistic_race, process_ipc_track_statistic_lem,
}
use go_template_aerospike.Tests.Messages.{
  test_fpu, jet_message, any, world, start, jet_track, jet_message-IsSafe, no_aircraft, converted,
}

convert_total_example :
    (t : Track) × (convert test_fpu (some jet_message) ≡ value (t, missing jet_message))
convert_total_example = convert_total test_fpu jet_message jet_message-IsSafe

empty_queue : length start.history_ch < channel_capacity
unfolding new_service
empty_queue = ground arith

process_ipc_track_update_example :
    (s' : Service Store) × (process_ipc_track_update world (pos 9) (some any) start
      ≡ returned tt s')
    × ((k : ℤ)
        → lookup k s'.track_map
          ≡ (if eqb_ℤ (pos 42) k then some (some jet_track) else lookup k start.track_map))
    × (s'.history_ch ≡ start.history_ch ++ row_at (pos 9) jet_track (pos 2) ∷ [])
process_ipc_track_update_example =
    process_ipc_track_update_lem world (pos 9) (some any) jet_track none (show_int (pos 42)) (pos 2)
      start converted refl refl empty_queue

-- A service whose history channel is full.
abbrev repeated : ℕ → List TrackHistory
repeated zero = []
repeated (suc n) = row_at (pos 9) jet_track (pos 2) ∷ repeated n

abbrev full : Service Store
full = record start { history_ch = repeated channel_capacity }

-- The track of a message without an aircraft.
abbrev bare_track : Track
bare_track = elim (convert test_fpu (some no_aircraft)) [ value r ↦ r.0 | panic ↦ jet_track ]

process_ipc_track_update_panics_example :
    (s' : Service Store) × (process_ipc_track_update world (pos 9) none start ≡ panicked s')
    × (lookup (pos 42) s'.track_map ≡ some (some bare_track))
    × (bare_track.identification ≡ none)
    × (s'.history_ch ≡ start.history_ch)
unfolding convert
process_ipc_track_update_panics_example =
    process_ipc_track_update_panics world (pos 9) none bare_track (missing no_aircraft)
      (show_int (pos 42)) start refl refl refl

process_ipc_track_remove_example :
    (s' : Service Store) × (process_ipc_track_remove world none start ≡ returned tt s')
    × ((k : ℤ)
        → lookup k s'.track_map
          ≡ (if contains k (encodable world (pos 42 ∷ [])) then none else lookup k start.track_map))
    × (s'.db ≡ forgotten world (encodable world (pos 42 ∷ [])) start.db)
    × (s'.history_ch ≡ start.history_ch)
process_ipc_track_remove_example = process_ipc_track_remove_lem world none start

world-IsRange : IsRange world.range_order
world-IsRange ks = Perm.refl ks

-- The tracks 7 and 42.
abbrev two_tracks : Service Store
two_tracks = record start {
  track_map = (pos 7, some (record jet_track { id = pos 7 })) ∷ (pos 42, some jet_track) ∷ [];
}

statistic_race_example :
    lookup
      (pos 42)
      (final (
        remove_missing
          (diff_array (get_all_track_ids world two_tracks) (pos 7 ∷ []))
          two_tracks)).track_map
    ≡ (if contains (pos 42) (keys two_tracks.track_map) && not (contains (pos 42) (pos 7 ∷ []))
        then none
        else lookup (pos 42) two_tracks.track_map)
statistic_race_example =
    lookup-statistic_race world (pos 7 ∷ []) two_tracks two_tracks (pos 42) world-IsRange

process_ipc_track_statistic_example :
    (s' : Service Store) × (process_ipc_track_statistic world none two_tracks ≡ returned tt s')
    × ((k : ℤ)
        → lookup k s'.track_map
          ≡ (if contains k (pos 7 ∷ []) then lookup k two_tracks.track_map else none))
    × (s'.history_ch ≡ two_tracks.history_ch)
process_ipc_track_statistic_example =
    process_ipc_track_statistic_lem world none [] two_tracks world-IsRange refl
