-- ===== src/Hosts/Indexes.antt =====
-- The secondary indexes: `EnsureSecondaryIndex` (internal/db/aerospikedb.go) and `MigrateDB`
-- (internal/service/main_service.go). `CreateIndex` is the client's.
use go_template_aerospike.Prelude.{
  Bytes, text, Bool, true, Option, none, some, ◌≡◌, refl, ap, ◌∙◌, arith, Option-cases, inl, inr,
}
use go_template_aerospike.Aerospike.{AsError, key_not_found, index_found, other_code}

pub record Index : Type 0 where
  pub namespace : Bytes
  pub set_name : Bytes
  pub index_name : Bytes
  pub bin_name : Bytes

-- What `CreateIndex` gives: an error, no task, or a task with the result that it completes with.
pub data Created : Type 0 where
  create_error : AsError → Created
  no_task : Created
  completes : Option AsError → Created

abbrev pub Indexer : Type 0 → Type 0
Indexer Db = Index → Db → Created × Db

unfoldable pub outcome_of : Created → Option AsError
outcome_of (create_error key_not_found) = some key_not_found
outcome_of (create_error index_found) = none
outcome_of (create_error (other_code n)) = some (other_code n)
outcome_of no_task = none
outcome_of (completes e) = e

unfoldable pub ensure_secondary_index :
    {Db : Type 0} → Indexer Db → Index → Db → Option AsError × Db
unfolding outcome_of
ensure_secondary_index create i db = let (created, db') = create i db in (outcome_of created, db')

-- Both indexes are numeric, on the bin `track_id`.
abbrev pub tracks_index : Bytes → Index
tracks_index namespace = record {
  namespace = namespace;
  set_name = text "tracks";
  index_name = text "tracks_tid_idx";
  bin_name = text "track_id";
}

abbrev pub history_index : Bytes → Index
history_index namespace = record {
  namespace = namespace;
  set_name = text "track_history";
  index_name = text "th_tid_idx";
  bin_name = text "track_id";
}

unfoldable pub migrate_db : {Db : Type 0} → Indexer Db → Bytes → Db → Option AsError × Db
unfolding ensure_secondary_index
migrate_db create namespace db =
    let (failed, db1) = ensure_secondary_index create (tracks_index namespace) db in
    let second = ensure_secondary_index create (history_index namespace) db1 in
    elim failed [ none ↦ second | some e ↦ (some e, db1) ]

-- What the client is documented to do: an index that exists is refused with INDEX_FOUND and nothing
-- changes; one whose creation succeeds exists from then on; a creation takes no index away.
pub record IsIndexer {Db : Type 0} (create : Indexer Db) (has_index : Index → Db → Bool)
    : Type 0 where
  pub create_again :
      (i : Index) (db : Db) → has_index i db ≡ true → create i db ≡ (create_error index_found, db)
  pub create_done :
      (i : Index) (db : Db) → outcome_of (create i db).0 ≡ none → has_index i (create i db).1 ≡ true
  pub create_keeps :
      (i j : Index) (db : Db) → has_index j db ≡ true → has_index j (create i db).1 ≡ true

module _ {Db : Type 0} (create : Indexer Db) (has_index : Index → Db → Bool)
    (law : IsIndexer create has_index) (namespace : Bytes) where
  migrate_db-second :
      (db : Db)
      → outcome_of (create (tracks_index namespace) db).0 ≡ none
      → migrate_db create namespace db
        ≡ ensure_secondary_index create
            (history_index namespace)
            (create (tracks_index namespace) db).1
  unfolding migrate_db ensure_secondary_index
  migrate_db-second db h = ground (arith, h)

  again :
      (i : Index) (db : Db)
      → has_index i db ≡ true
      → ensure_secondary_index create i db ≡ (none, db)
  unfolding ensure_secondary_index outcome_of
  again i db h = ground (arith, law.create_again i db h)

  migrate_again :
      (db : Db)
      → has_index (tracks_index namespace) db ≡ true
      → has_index (history_index namespace) db ≡ true
      → migrate_db create namespace db ≡ (none, db)
  migrate_again db h k =
      let first = law.create_again (tracks_index namespace) db h in
      let ok : outcome_of (create (tracks_index namespace) db).0 ≡ none =
        ap (λ (r : Created × Db). outcome_of r.0) first ∙ unfold outcome_of in refl in
      migrate_db-second db ok
      ∙ ap (λ (r : Created × Db). ensure_secondary_index create (history_index namespace) r.1) first
      ∙ again (history_index namespace) db k

  migrate_makes :
      (db : Db)
      → (migrate_db create namespace db).0 ≡ none
      → (has_index (tracks_index namespace) (migrate_db create namespace db).1 ≡ true)
        × (has_index (history_index namespace) (migrate_db create namespace db).1 ≡ true)
  migrate_makes db h = elim (Option-cases (outcome_of (create (tracks_index namespace) db).0)) [
    | inl made ↦
        let same = migrate_db-second db made in
        let kept =
          law.create_keeps (history_index namespace) (tracks_index namespace) _
            (law.create_done (tracks_index namespace) db made) in
        let second =
          law.create_done (history_index namespace) (create (tracks_index namespace) db).1 in
        rw same (unfold ensure_secondary_index in (kept, second (rw same at h)))
    | inr (e, failed) ↦ absurd (unfold migrate_db ensure_secondary_index in ground arith)
  ]

-- `MigrateDB` may run again at every start: after one that returns nil both indexes exist, and
-- another returns nil and changes nothing.
pub migrate_db_again :
    {Db : Type 0} (create : Indexer Db) (has_index : Index → Db → Bool) (namespace : Bytes)
    (db : Db)
    → IsIndexer create has_index
    → (migrate_db create namespace db).0 ≡ none
    → (has_index (tracks_index namespace) (migrate_db create namespace db).1 ≡ true)
      × (has_index (history_index namespace) (migrate_db create namespace db).1 ≡ true)
      × (migrate_db create namespace (migrate_db create namespace db).1
          ≡ (none, (migrate_db create namespace db).1))
migrate_db_again create has_index namespace db law h =
    let (tracks, histories) = migrate_makes create has_index law namespace db h in
    (tracks, histories, migrate_again create has_index law namespace _ tracks histories)
