-- ===== src/History/Deletion.antt =====
-- What `DeleteTrackHistory` (internal/service/track_history.go) leaves in the database.
use go_template_aerospike.Prelude.{
  ℤ, Bytes, Bool, false, Option, none, some, List, [], ◌∷◌, ◌≡◌, refl, arith, inl, inr,
  if◌then◌else◌, Option-cases,
}
use go_template_aerospike.Aerospike.{
  Fields, Key, has_error, eq_key, QueryItem, item_error, item, QueryResult-cases, Client,
  IsFaithful, names, matched,
}
use go_template_aerospike.History.{
  history_statement, delete_policy, delete_key, delete_rows, delete_track_history,
}

module _ {Db : Type 0} (client : Client Db) (get : Key → Db → Option Fields)
    (faithful : IsFaithful client get) (namespace : Bytes) where
  open faithful use {get-delete, query_exact}

  abbrev hits : Option Key → Key → Bool
  hits none j = false
  hits (some k) j = eq_key k j

  get-delete_key :
      (o : Option Key) (j : Key) (db : Db)
      → (delete_key client namespace o db).0 ≡ none
      → get j (delete_key client namespace o db).1 ≡ (if hits o j then none else get j db)
  unfolding delete_key
  get-delete_key none j db h = refl
  get-delete_key (some k) j db h = get-delete delete_policy k j db (ground arith)

  get-delete_rows :
      (j : Key) (items : List QueryItem) (db : Db)
      → (delete_rows client namespace items db).0 ≡ none
      → get j (delete_rows client namespace items db).1 ≡ (if names j items then none else get j db)
  unfolding delete_rows names
  get-delete_rows j [] db h = refl
  get-delete_rows j (item_error e ∷ rest) db h = cc
  get-delete_rows j (item none ∷ rest) db h = get-delete_rows j rest db h
  get-delete_rows j (item (some row) ∷ rest) db h =
      elim (Option-cases (delete_key client namespace row.key db).0) [
        | inl gone ↦ ground (
          arith,
          get-delete_key row.key j db gone,
          get-delete_rows j rest (delete_key client namespace row.key db).1,
        )
        | inr (e, kept) ↦ ground arith
      ]

  -- The first error of the result set would be returned.
  delete_rows-error :
      (items : List QueryItem) (db : Db)
      → (delete_rows client namespace items db).0 ≡ none
      → has_error items ≡ false
  unfolding delete_rows has_error
  delete_rows-error [] db h = refl
  delete_rows-error (item_error e ∷ rest) db h = cc
  delete_rows-error (item none ∷ rest) db h = delete_rows-error rest db h
  delete_rows-error (item (some row) ∷ rest) db h =
      elim (Option-cases (delete_key client namespace row.key db).0) [
        | inl gone ↦
            ground (arith, delete_rows-error rest (delete_key client namespace row.key db).1)
        | inr (e, kept) ↦ ground arith
      ]

-- After a deletion that returns no error, the history of the track is gone, whatever order the
-- result set had: a record that matched the filter is no longer there, and every other record is
-- what it was.
pub get-delete_track_history :
    {Db : Type 0} (client : Client Db) (get : Key → Db → Option Fields) (namespace : Bytes)
    (track_id : ℤ) (db : Db)
    → IsFaithful client get
    → (delete_track_history client namespace track_id db).0 ≡ none
    → (k : Key)
    → get k (delete_track_history client namespace track_id db).1 ≡ (
        if matched (history_statement namespace track_id false) k (get k db)
        then none
        else get k db)
unfolding delete_track_history
get-delete_track_history client get namespace track_id db faithful h k =
    elim (QueryResult-cases (client.query (history_statement namespace track_id false) db)) [
      | inl (e, p) ↦ ground arith
      | inr (items, p) ↦ ground (
        arith,
        faithful.query_exact _ db items k p,
        delete_rows-error client get faithful namespace items db,
        get-delete_rows client get faithful namespace k items db,
      )
    ]
