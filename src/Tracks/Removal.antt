-- ===== src/Tracks/Removal.antt =====
-- `processIpcTrackRemove` (internal/service/track.go): what a removal message does to the service.
use go_template_aerospike.Prelude.{
  ℤ, Bytes, text, eqb_ℤ_iff, Option, none, some, List, [], ◌∷◌, ◌≡◌, refl, ◌∙◌, arith,
  if◌then◌else◌, lookup, delete, lookup-delete, returned, Option-cases, inl, inr,
}
use go_template_aerospike.History.{delete_track_history}
use go_template_aerospike.Service.{Any, World, Service, publish_event_lem, taken}
use go_template_aerospike.Tracks.{
  remove_track_from_map, forget_history, remove_track, remove_each, process_ipc_track_remove,
}
use go_template_aerospike.Tracks.Keys.{contains}

module _ {Db : Type 0} (w : World Db) where
  -- The service after one round of the loop.
  unfoldable pub removed : ℤ → Bytes → Service Db → Service Db
  removed k payload s = record s {
    published = taken w payload (text "track.delete") s.published;
    track_map = delete k s.track_map;
    db = (delete_track_history w.client w.namespace k s.db).1;
  }

  remove_track_lem :
      (k : ℤ) (payload : Bytes) (s : Service Db)
      → remove_track w k payload s ≡ returned tt (removed k payload s)
  unfolding remove_track removed remove_track_from_map forget_history
  remove_track_lem k payload s = rw (publish_event_lem w payload (text "track.delete") s) refl

  -- The ids before the first one whose deletion message cannot be encoded.
  unfoldable pub encodable : List ℤ → List ℤ
  encodable [] = []
  encodable (k ∷ ks) =
      let rest = encodable ks in elim (w.marshal_delete_track k) [ none ↦ [] | some _ ↦ k ∷ rest ]

  -- Their histories deleted one after another, errors ignored.
  unfoldable pub forgotten : List ℤ → Db → Db
  forgotten [] db = db
  forgotten (k ∷ ks) db = forgotten ks (delete_track_history w.client w.namespace k db).1

  -- What is left of the service by a loop that removes these ids.
  record IsRemoved (ks : List ℤ) (s s' : Service Db) : Type 0 where
    gone : (k : ℤ) → lookup k s'.track_map ≡ (if contains k ks then none else lookup k s.track_map)
    cleared : s'.db ≡ forgotten ks s.db
    queued : s'.history_ch ≡ s.history_ch

  pub remove_each_stop :
      (k : ℤ) (ks : List ℤ) (s : Service Db)
      → w.marshal_delete_track k ≡ none
      → remove_each w (k ∷ ks) s ≡ returned tt s
  unfolding remove_each
  remove_each_stop k ks s e = ground arith

  pub remove_each_go :
      (k : ℤ) (ks : List ℤ) (payload : Bytes) (s : Service Db)
      → w.marshal_delete_track k ≡ some payload
      → remove_each w (k ∷ ks) s ≡ remove_each w ks (removed k payload s)
  unfolding remove_each
  remove_each_go k ks payload s e = ground (arith, remove_track_lem k payload s)

  IsRemoved-nil : (s : Service Db) → IsRemoved [] s s
  unfolding forgotten
  IsRemoved-nil s = record { gone = λ k. refl; cleared = refl; queued = refl }

  IsRemoved-cons :
      (j : ℤ) (payload : Bytes) (ks : List ℤ) (s s' : Service Db)
      → IsRemoved ks (removed j payload s) s'
      → IsRemoved (j ∷ ks) s s'
  unfolding removed forgotten
  IsRemoved-cons j payload ks s s' r = record {
    gone =
        λ k. ground (arith, r.gone k, lookup-delete j k s.track_map, eqb_ℤ_iff j k, eqb_ℤ_iff k j);
    cleared = r.cleared;
    queued = r.queued;
  }

  encodable_stop : (j : ℤ) (ks : List ℤ) → w.marshal_delete_track j ≡ none → encodable (j ∷ ks) ≡ []
  unfolding encodable
  encodable_stop j ks e = ground arith

  encodable_go :
      (j : ℤ) (ks : List ℤ) {payload : Bytes}
      → w.marshal_delete_track j ≡ some payload
      → encodable (j ∷ ks) ≡ j ∷ encodable ks
  unfolding encodable
  encodable_go j ks e = ground arith

  remove_each_lem :
      (ks : List ℤ) (s : Service Db)
      → (s' : Service Db) × (remove_each w ks s ≡ returned tt s') × IsRemoved (encodable ks) s s'
  remove_each_lem [] s = (s, unfold remove_each in refl, unfold encodable in IsRemoved-nil s)
  remove_each_lem (j ∷ ks) s = elim (Option-cases (w.marshal_delete_track j)) [
    | inl fails ↦
        (s, remove_each_stop j ks s fails, rw (encodable_stop j ks fails) (IsRemoved-nil s))
    | inr (payload, m) ↦
        let (s', e, r) = remove_each_lem ks (removed j payload s) in
        (
          s',
          remove_each_go j ks payload s m ∙ e,
          rw (encodable_go j ks m) (IsRemoved-cons j payload (encodable ks) s s' r),
        )
  ]

-- The handler always returns. The tracks before the first whose deletion message cannot be encoded
-- are gone from the map and their histories were deleted one after another; every other entry of
-- the map, and the history queue, are as before.
pub process_ipc_track_remove_lem :
    {Db : Type 0} (w : World Db) (detail : Option Any) (s : Service Db)
    → (s' : Service Db) × (process_ipc_track_remove w detail s ≡ returned tt s')
      × ((k : ℤ)
          → lookup k s'.track_map ≡ (
              if contains k (encodable w (w.unmarshal_removed_tracks detail))
              then none
              else lookup k s.track_map))
      × (s'.db ≡ forgotten w (encodable w (w.unmarshal_removed_tracks detail)) s.db)
      × (s'.history_ch ≡ s.history_ch)
unfolding process_ipc_track_remove
process_ipc_track_remove_lem w detail s =
    let (s', e, r) = remove_each_lem w (w.unmarshal_removed_tracks detail) s in
    (s', e, r.gone, r.cleared, r.queued)
