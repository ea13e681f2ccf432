-- ===== src/History/Writes.antt =====
-- What `InsertBatchTrackHistory` (internal/service/track_history.go) writes.
use go_template_aerospike.Prelude.{
  Bytes, eq_bytes, true, false, Option, none, some, List, [], ◌∷◌, ◌≡◌, ◌≢◌, refl, ap, ◌∙◌, sym,
  Bool, arith, if◌then◌else◌, Bool-cases, Option-cases, inl, inr,
}
use go_template_aerospike.Track.{TrackHistory}
use go_template_aerospike.Aerospike.{
  BinValue, Bins, bin, Fields, over, under, merge, HasValues, Key, eq_key, eq_key_iff, Client,
  IsFaithful,
}
use go_template_aerospike.History.{
  history_key, bins_of, write_policy, insert_history, insert_batch_track_history,
}

-- The last row of a batch with a key.
unfoldable pub last_row : Bytes → Key → List (Option TrackHistory) → Option TrackHistory
last_row namespace k [] = none
last_row namespace k (none ∷ batch) = last_row namespace k batch
last_row namespace k (some h ∷ batch) =
    let later = last_row namespace k batch in
    elim later [
      | some row ↦ some row
      | none ↦ if eq_key (history_key namespace h) k then some h else none
    ]

-- The row's bins shadow those that the record has under their names; its other bins stay.
abbrev pub shadowed : Option TrackHistory → Option Fields → Option Fields
shadowed none old = old
shadowed (some h) old = some (merge (bins_of h) old)

-- Two lists of bins have the same names.
abbrev SameNames : Bins → Bins → Type 0
SameNames [] [] = Unit
SameNames [] (y ∷ ys) = ⊥
SameNames (x ∷ xs) [] = ⊥
SameNames (x ∷ xs) (y ∷ ys) = (x.0 ≡ y.0) × SameNames xs ys

over_same :
    (xs ys : Bins) (name : Bytes) (old : Option BinValue)
    → SameNames xs ys
    → over (bin name xs) (over (bin name ys) old) ≡ over (bin name xs) old
unfolding bin
over_same [] [] name old same = refl
over_same [] (y ∷ ys) name old same = absurd same
over_same (x ∷ xs) [] name old same = absurd same
over_same ((n, v) ∷ xs) ((m, u) ∷ ys) name old (e, same) = elim (Bool-cases (eq_bytes n name)) [
  | inl here ↦ rw here refl
  | inr there ↦
      let other : eq_bytes m name ≡ false = rw (← e) there in
      rw (there, other) (over_same xs ys name old same)
]

-- All rows write the same bins, so that the later of two with one key alone counts.
pub shadowed-shadowed :
    (a b : Option TrackHistory) (old : Option Fields)
    → b ≢ none
    → shadowed b (shadowed a old) ≡ shadowed b old
unfolding bins_of
shadowed-shadowed a none old h = absurd (h refl)
shadowed-shadowed none (some b) old h = refl
shadowed-shadowed (some a) (some b) old h = λ i. some (λ name.
    over_same (bins_of b) (bins_of a) name (under old name)
      (refl, (refl, (refl, (refl, (refl, (refl, (refl, (refl, (refl, tt))))))))) i)

bins_of-HasValues : (h : TrackHistory) → HasValues (bins_of h)
unfolding bins_of
bins_of-HasValues h = (
  (λ e. ground arith),
  (
    (λ e. ground arith),
    (
      (λ e. ground arith),
      (
        (λ e. ground arith),
        (
          (λ e. ground arith),
          (
            (λ e. ground arith),
            ((λ e. ground arith), ((λ e. ground arith), ((λ e. ground arith), tt))),
          ),
        ),
      ),
    ),
  ),
)

pub last_row-cons :
    (namespace : Bytes) (k : Key) (x : TrackHistory) (l : List (Option TrackHistory))
    (o : Option Fields)
    → shadowed (last_row namespace k (some x ∷ l)) o
      ≡ shadowed (last_row namespace k l) (shadowed (last_row namespace k (some x ∷ [])) o)
unfolding last_row
last_row-cons namespace k x l o = elim (Option-cases (last_row namespace k l)) [
  | inl absent ↦ rw absent refl
  | inr (row, found) ↦
      rw found (
        sym (shadowed-shadowed (last_row namespace k (some x ∷ [])) (some row) o λ e. ground arith))
]

module _ {Db : Type 0} (client : Client Db) (get : Key → Db → Option Fields)
    (faithful : IsFaithful client get) (namespace : Bytes) where
  get-insert_history :
      (h : TrackHistory) (k : Key) (db : Db)
      → (insert_history client namespace h db).0 ≡ none
      → get k (insert_history client namespace h db).1
        ≡ shadowed (last_row namespace k (some h ∷ [])) (get k db)
  unfolding insert_history last_row
  get-insert_history h k db e = elim (Option-cases (client.new_key (history_key namespace h))) [
    | inl made ↦
        let key = history_key namespace h in
        let same : insert_history client namespace h db
            ≡ client.put_bins write_policy key (bins_of h) db =
          rw (insert_history, made) refl in
        ap (λ x. get k x.1) same
        ∙ faithful.get-put write_policy key k (bins_of h) db (bins_of-HasValues h)
            (sym (ap (λ x. x.0) same) ∙ e)
        ∙ merged (eq_key key k) refl
    | inr (x, failed) ↦ absurd (ground (arith, e, failed))
  ]
    where
      merged :
          (b : Bool)
          → eq_key (history_key namespace h) k ≡ b
          → (if b then some (merge (bins_of h) (get (history_key namespace h) db)) else get k db)
            ≡ shadowed (if b then some h else none) (get k db)
      merged true same =
          ap (λ j. some (merge (bins_of h) (get j db)))
            ((eq_key_iff (history_key namespace h) k).0 same)
      merged false other = refl

  get-insert :
      (k : Key) (batch : List (Option TrackHistory)) (db : Db)
      → (insert_batch_track_history client namespace batch db).0 ≡ none
      → get k (insert_batch_track_history client namespace batch db).1
        ≡ shadowed (last_row namespace k batch) (get k db)
  unfolding insert_batch_track_history last_row
  get-insert k [] db h = refl
  get-insert k (none ∷ batch) db h = get-insert k batch db h
  get-insert k (some row ∷ batch) db h =
      elim (Option-cases (insert_history client namespace row db).0) [
        | inl fine ↦
            let db' = (insert_history client namespace row db).1 in
            let e : insert_batch_track_history client namespace (some row ∷ batch) db
                ≡ insert_batch_track_history client namespace batch db' =
              rw (insert_batch_track_history, fine) refl in
            ap (λ x. get k x.1) e
            ∙ get-insert k batch db' (sym (ap (λ x. x.0) e) ∙ h)
            ∙ ap (shadowed (last_row namespace k batch)) (get-insert_history row k db fine)
            ∙ sym (last_row-cons namespace k row batch (get k db))
        | inr (x, failed) ↦ absurd (ground (arith, h, failed))
      ]

-- A batch that is written without error is in the database: a key of the batch has the bins of the
-- batch's last row with that key and, under other names, the bins that it had; every other key holds what
-- it held.
pub get-insert_batch_track_history :
    {Db : Type 0} (client : Client Db) (get : Key → Db → Option Fields) (namespace : Bytes)
    (batch : List (Option TrackHistory)) (db : Db)
    → IsFaithful client get
    → (insert_batch_track_history client namespace batch db).0 ≡ none
    → (k : Key)
    → get k (insert_batch_track_history client namespace batch db).1
      ≡ shadowed (last_row namespace k batch) (get k db)
get-insert_batch_track_history client get namespace batch db faithful h k =
    get-insert client get faithful namespace k batch db h
