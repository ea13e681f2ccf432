-- ===== src/System/Races.antt =====
-- What can come of two messages about one track whose handlers run next to each other
-- (cmd/start.go, internal/service/track.go).
use go_template_aerospike.Prelude.{
  ℕ, ◌+◌, ◌<◌, ℤ, Bytes, eqb_ℤ_refl, some, List, [], ◌∷◌, ◌++◌, ◌≡◌, refl, ◌∙◌, arith, length,
  length-append, lookup, lookup-insert,
}
use go_template_aerospike.Track.{Track}
use go_template_aerospike.History.{delete_track_history}
use go_template_aerospike.Service.{World, Service, channel_capacity}
use go_template_aerospike.Tracks.{track_subject}
use go_template_aerospike.Tracks.Update.{updated, row_at}
use go_template_aerospike.Tracks.Removal.{removed}
use go_template_aerospike.Batch.{Batch}
use go_template_aerospike.System.{
  publishing, removing, System, Happening, delivers, runs, run_system, run_done,
}
use go_template_aerospike.System.Courses.{
  alive, four_steps, IsUpdate, IsRemoval, recorded, update_runs, advance-IsUpdate,
  advance-IsRemoval, removal_runs, both_start,
}

-- Two messages with states of one track, and a system with no handler and room for two rows: there
-- is a course of events in which the messages are delivered in this order, both handlers return, and
-- the map holds the first, older state, while the rows are queued in the reverse order.
pub older_update_wins :
    {Db : Type 0} (w : World Db) (batch_size : ℕ) (b : Batch Db) (now : ℤ) (c c' : Bytes)
    (t t' : Track) (payload payload' : Bytes) (i i' : ℤ) (s : Service Db)
    → IsUpdate w c t payload i
    → IsUpdate w c' t' payload' i'
    → t.id ≡ t'.id
    → length s.history_ch + 1 < channel_capacity
    → (es : List Happening) × (sys : System Db) × (run_system w batch_size
          (delivers track_subject c ∷ delivers track_subject c' ∷ es)
          (alive s b [])
        ≡ some sys)
      × (sys.handlers ≡ [])
      × (lookup t'.id sys.service.track_map ≡ some (some t))
      × (sys.service.history_ch ≡ (s.history_ch ++ row_at now t' i' ∷ []) ++ row_at now t i ∷ [])
unfolding updated
older_update_wins w batch_size b now c c' t t' payload payload' i i' s u u' same room =
    let newer = recorded w batch_size b now t' i' payload' s in
    let older = recorded w batch_size b now t i payload newer in
    (
      runs 0 now ∷ runs 1 now ∷ (four_steps now ++ (four_steps now ++ [])),
      alive older b [],
      both_start w batch_size b now c c' (publishing t payload) (publishing t' payload') s _ _
          (advance-IsUpdate w batch_size b now c t payload i s u)
          (advance-IsUpdate w batch_size b now c' t' payload' i' s u')
          (update_runs w batch_size b now t' i' payload' (publishing t payload ∷ []) s _ _
            u'.identified (omega arith)
            (update_runs w batch_size b now t i payload [] newer [] _ u.identified
              (omega (arith, length-append s.history_ch (row_at now t' i' ∷ [])))
              (run_done w batch_size (alive older b [])))),
      refl,
      lookup-insert t.id t'.id (some t) newer.track_map ∙ ground (arith, eqb_ℤ_refl t.id, same),
      refl,
    )

-- A message with a state of a track, a message that removes the track, and a system with no handler
-- and room for a row: there is a course of events in which the messages are delivered in this order,
-- both handlers return, and the track is in the map, its history deleted and a row of it queued.
pub removed_track_returns :
    {Db : Type 0} (w : World Db) (batch_size : ℕ) (b : Batch Db) (now : ℤ) (c c' : Bytes)
    (t : Track) (payload payload' : Bytes) (i : ℤ) (s : Service Db)
    → IsUpdate w c t payload i
    → IsRemoval w c' t.id payload'
    → length s.history_ch < channel_capacity
    → (es : List Happening) × (sys : System Db) × (run_system w batch_size
          (delivers track_subject c ∷ delivers track_subject c' ∷ es)
          (alive s b [])
        ≡ some sys)
      × (sys.handlers ≡ [])
      × (lookup t.id sys.service.track_map ≡ some (some t))
      × (sys.service.db ≡ (delete_track_history w.client w.namespace t.id s.db).1)
      × (sys.service.history_ch ≡ s.history_ch ++ row_at now t i ∷ [])
unfolding updated removed
removed_track_returns w batch_size b now c c' t payload payload' i s u r room =
    let gone = removed w t.id payload' s in
    let returns = recorded w batch_size b now t i payload gone in
    (
      runs 0 now ∷ runs 1 now ∷ (four_steps now ++ (four_steps now ++ [])),
      alive returns b [],
      both_start w batch_size b now c c' (publishing t payload) (removing (t.id ∷ [])) s _ _
          (advance-IsUpdate w batch_size b now c t payload i s u)
          (advance-IsRemoval w batch_size b now c' t.id payload' s r)
          (removal_runs w batch_size b now t.id payload' (publishing t payload ∷ []) s _ _ r.encodes
            (update_runs w batch_size b now t i payload [] gone [] _ u.identified room
              (run_done w batch_size (alive returns b [])))),
      refl,
      lookup-insert t.id t.id (some t) gone.track_map ∙ ground (arith, eqb_ℤ_refl t.id),
      refl,
      refl,
    )
