-- ===== src/History/Reading.antt =====
-- What `FindByTrackId` (internal/service/track_history.go) returns.
use mathlib.Core.List.{Perm}
use go_template_aerospike.Prelude.{
  ℕ, zero, suc, ℤ, pos, negsuc, Bool, true, false, List, [], ◌∷◌, ◌++◌, ◌≡◌, refl, arith, ◌⊎◌,
  if◌then◌else◌, ltb, ltb_ℤ, All, length, drop, take-append-drop, length-take, append-nil, to_int32,
  value, panic,
}
use go_template_aerospike.Track.{HistoryItem}
use go_template_aerospike.Aerospike.{QueryItem, recordset}
use go_template_aerospike.History.{
  found, is_newer, newest, make_history, Reader, collect, find_by_track_id, history_statement,
}

-- A strict weak order, which `sort.Slice` asks of its test.
pub record IsWeakOrder {A : Type 0} (less : A → A → Bool) : Type 0 where
  pub asymmetric : (a b : A) → less a b ≡ true → less b a ≡ false
  pub cotransitive : (a b c : A) → less a b ≡ true → (less a c ≡ true) ⊎ (less c b ≡ true)

-- No later item is less than an earlier one.
abbrev pub IsSorted : {A : Type 0} → (A → A → Bool) → List A → Type 0
IsSorted less [] = Unit
IsSorted less (x ∷ xs) = All (λ y. less y x ≡ false) xs × IsSorted less xs

-- What `sort.Slice` is documented to do; it need not be stable.
pub record IsSort {A : Type 0} (sort : (A → A → Bool) → List A → List A) : Type 0 where
  pub permutes : (less : A → A → Bool) (xs : List A) → Perm (sort less xs) xs
  pub sorts : (less : A → A → Bool) (xs : List A) → IsWeakOrder less → IsSorted less (sort less xs)

newer_asymmetric : (x y : ℤ) → ltb_ℤ y x ≡ true → ltb_ℤ x y ≡ false
newer_asymmetric (pos m) (pos n) h = ground arith
newer_asymmetric (negsuc m) (negsuc n) h = ground arith
newer_asymmetric (pos m) (negsuc n) h = ground arith
newer_asymmetric (negsuc m) (pos n) h = ground arith

newer_cotransitive : (x y z : ℤ) → ltb_ℤ y x ≡ true → (ltb_ℤ z x ≡ true) ⊎ (ltb_ℤ y z ≡ true)
newer_cotransitive (pos m) (pos n) (pos k) h = ground arith
newer_cotransitive (negsuc m) (negsuc n) (negsuc k) h = ground arith
newer_cotransitive (pos m) (negsuc n) (negsuc k) h = ground arith
newer_cotransitive _ _ _ h = ground arith

is_newer-IsWeakOrder : IsWeakOrder is_newer
is_newer-IsWeakOrder = record {
  asymmetric = λ a b h. newer_asymmetric a.created_at b.created_at h;
  cotransitive = λ a b c h. newer_cotransitive a.created_at b.created_at c.created_at h;
}

-- The length of a page of at most `limit` items, where a limit below 1 is none.
abbrev page_length : ℤ → ℕ → ℕ
page_length (pos zero) n = n
page_length (pos (suc l)) n = if ltb (suc l) n then suc l else n
page_length (negsuc l) n = n

-- `items` are the newest of `all`: with the items left out they are `all`, newest first, and as many
-- as the limit allows.
pub record IsNewest (limit : ℤ) (items all : List HistoryItem) : Type 0 where
  pub left_out : List HistoryItem
  pub complete : Perm (items ++ left_out) all
  pub newest_first : IsSorted is_newer (items ++ left_out)
  pub as_many : length items ≡ page_length limit (length (items ++ left_out))

left_out_of : ℤ → List HistoryItem → List HistoryItem
left_out_of (pos zero) items = []
left_out_of (pos (suc l)) items = if ltb (suc l) (length items) then drop (suc l) items else []
left_out_of (negsuc l) items = []

newest-append :
    (limit : ℤ) (items : List HistoryItem) → newest limit items ++ left_out_of limit items ≡ items
unfolding newest left_out_of
newest-append (pos zero) items = append-nil items
newest-append (pos (suc l)) items = ground (arith, append-nil items, take-append-drop (suc l) items)
newest-append (negsuc l) items = append-nil items

length-newest :
    (limit : ℤ) (items : List HistoryItem)
    → length (newest limit items) ≡ page_length limit (length items)
unfolding newest
length-newest (pos zero) items = refl
length-newest (pos (suc l)) items = ground (arith, length-take (suc l) items)
length-newest (negsuc l) items = refl

newest-IsNewest :
    (limit : ℤ) (sorted all : List HistoryItem)
    → Perm sorted all
    → IsSorted is_newer sorted
    → IsNewest limit (newest limit sorted) all
newest-IsNewest limit sorted all p h = record {
  left_out = left_out_of limit sorted;
  complete = rw (newest-append limit sorted) p;
  newest_first = rw (newest-append limit sorted) h;
  as_many = rw (newest-append limit sorted) (length-newest limit sorted);
}

-- If the query succeeds and yields no error, and the limit can be allocated, the result is the
-- newest items of the result set, newest first, and no more than the limit if that is positive.
pub find_by_track_id-IsNewest :
    {Db : Type 0} (r : Reader Db) (track_id limit : ℤ) (db : Db) (items : List QueryItem)
    (all : List HistoryItem)
    → IsSort r.sort_slice
    → r.client.query (history_statement r.namespace (to_int32 track_id) true) db ≡ recordset items
    → collect r.fpu items ≡ found all
    → make_history r.max_alloc limit ≡ value []
    → (page : List HistoryItem) × (find_by_track_id r track_id limit db ≡ value (found page))
      × IsNewest limit page all
unfolding find_by_track_id
find_by_track_id-IsNewest r track_id limit db items all sort asked got room = (
  newest limit (r.sort_slice is_newer all),
  ground arith,
  newest-IsNewest limit _ all (sort.permutes is_newer all)
      (sort.sorts is_newer all is_newer-IsWeakOrder),
)

-- A negative limit makes the call panic, whatever the result set holds.
pub find_by_track_id_negative :
    {Db : Type 0} (r : Reader Db) (track_id : ℤ) (n : ℕ) (db : Db) (items : List QueryItem)
    → r.client.query (history_statement r.namespace (to_int32 track_id) true) db ≡ recordset items
    → find_by_track_id r track_id (negsuc n) db ≡ panic
unfolding find_by_track_id
find_by_track_id_negative r track_id n db items asked = ground arith
