-- ===== src/Tracks/Queries.antt =====
-- The queries on the track map (internal/service/track.go).
use mathlib.Core.List.{Perm}
use go_template_aerospike.Prelude.{IsMap, keys}
use go_template_aerospike.Service.{World, Service}
use go_template_aerospike.Tracks.{get_all_track_ids, find_track_all}
use go_template_aerospike.Tracks.Keys.{values, tracks_at-Perm, tracks_at-keys}
use go_template_aerospike.Tracks.Statistic.{IsRange}

-- `FindTrackAll` returns each track of the map once, in the order of the map's iteration.
pub find_track_all-Perm :
    {Db : Type 0} (w : World Db) (s : Service Db)
    → IsRange w.range_order
    → IsMap s.track_map
    → Perm (find_track_all w s) (values s.track_map)
unfolding find_track_all get_all_track_ids
find_track_all-Perm w s range m =
    rw (← tracks_at-keys s.track_map m) (tracks_at-Perm s.track_map (range (keys s.track_map)))
