-- ===== src/Tracks/Statistic.antt =====
-- `processIpcTrackStatistic` (internal/service/track.go) against its contract: of the tracks that it
-- saw, it keeps those that the message names.
use mathlib.Core.List.{Perm}
use go_template_aerospike.Prelude.{
  ℤ, Bytes, text, not, ◌&&◌, Option, none, some, List, [], ◌∷◌, ◌≡◌, refl, arith, if◌then◌else◌,
  lookup, keys, returned, final,
}
use go_template_aerospike.Service.{Any, World, Service, publish_event_lem, taken}
use go_template_aerospike.Tracks.{
  diff_array, remove_tracks_from_map, remove_missing, get_all_track_ids, apply_statistic,
  process_ipc_track_statistic,
}
use go_template_aerospike.Tracks.Keys.{
  contains, contains-Perm, contains-diff_array, lookup-delete_all, contains-keys,
}

-- `range` visits each key once, in an order of its own.
abbrev pub IsRange : (List ℤ → List ℤ) → Type 0
IsRange order = (ks : List ℤ) → Perm (order ks) ks

module _ {Db : Type 0} (w : World Db) where
  lookup-remove_missing :
      (k : ℤ) (ks : List ℤ) (s : Service Db)
      → lookup k (final (remove_missing ks s)).track_map
        ≡ (if contains k ks then none else lookup k s.track_map)
  unfolding remove_missing remove_tracks_from_map
  lookup-remove_missing k [] s = refl
  lookup-remove_missing k (j ∷ ks) s = lookup-delete_all k (j ∷ ks) s.track_map

  contains-get_all_track_ids :
      (k : ℤ) (s : Service Db)
      → IsRange w.range_order
      → contains k (get_all_track_ids w s) ≡ contains k (keys s.track_map)
  unfolding get_all_track_ids
  contains-get_all_track_ids k s range = contains-Perm k (range (keys s.track_map))

  pub remove_missing_lem :
      (ks : List ℤ) (s : Service Db)
      → remove_missing ks s
        ≡ returned tt (record s { track_map = (final (remove_missing ks s)).track_map })
  unfolding remove_missing remove_tracks_from_map
  remove_missing_lem [] s = refl
  remove_missing_lem (k ∷ ks) s = refl

  pub apply_statistic_lem :
      (ids : List ℤ) (payload : Bytes) (s : Service Db)
      → apply_statistic w ids (some payload) s
        ≡ returned tt (record s {
          track_map = (final (remove_missing (diff_array (get_all_track_ids w s) ids) s)).track_map;
          published = taken w payload (text "track.all") s.published;
        })
  unfolding apply_statistic
  apply_statistic_lem ids payload s = ground (
    arith,
    remove_missing_lem (diff_array (get_all_track_ids w s) ids) s,
    publish_event_lem w payload (text "track.all") (record s {
      track_map = (final (remove_missing (diff_array (get_all_track_ids w s) ids) s)).track_map;
    }),
  )

-- The handler reads the keys under one lock and deletes under another. Between the two, other
-- handlers may have taken the service from `before` to `after`: a track goes exactly if its key was
-- there before and is not among the message's ids. A track that came in between stays, and one that
-- was updated in between goes nevertheless.
pub lookup-statistic_race :
    {Db : Type 0} (w : World Db) (ids : List ℤ) (before after : Service Db) (k : ℤ)
    → IsRange w.range_order
    → lookup k
        (final (remove_missing (diff_array (get_all_track_ids w before) ids) after)).track_map
      ≡ (if contains k (keys before.track_map) && not (contains k ids)
          then none
          else lookup k after.track_map)
lookup-statistic_race w ids before after k range =
    rw
      (
        lookup-remove_missing w k (diff_array (get_all_track_ids w before) ids) after,
        contains-diff_array k (get_all_track_ids w before) ids,
        contains-get_all_track_ids w k before range,
      )
      refl

-- If its reply can be encoded, the handler returns and the map keeps exactly the entries whose keys
-- the message names, whatever the order in which the map is read; nothing is queued.
pub process_ipc_track_statistic_lem :
    {Db : Type 0} (w : World Db) (detail : Option Any) (payload : Bytes) (s : Service Db)
    → IsRange w.range_order
    → w.marshal_list_current_tracks (w.unmarshal_track_statistics detail) ≡ some payload
    → (s' : Service Db) × (process_ipc_track_statistic w detail s ≡ returned tt s')
      × ((k : ℤ)
          → lookup k s'.track_map ≡ (
              if contains k (w.unmarshal_track_statistics detail)
              then lookup k s.track_map
              else none))
      × (s'.history_ch ≡ s.history_ch)
unfolding process_ipc_track_statistic
process_ipc_track_statistic_lem w detail payload s range e = (
  record s {
    track_map =
        (final (
          remove_missing (diff_array (get_all_track_ids w s) (w.unmarshal_track_statistics detail))
            s)).track_map;
    published = taken w payload (text "track.all") s.published;
  },
  rw e (apply_statistic_lem w (w.unmarshal_track_statistics detail) payload s),
  λ k.
      rw (lookup-statistic_race w (w.unmarshal_track_statistics detail) s s k range)
        (ground (arith, contains-keys k s.track_map)),
  refl,
)
