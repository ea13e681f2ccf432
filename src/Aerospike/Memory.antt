-- ===== src/Aerospike/Memory.antt =====
-- A database in memory: a client that does what the Aerospike client is documented to do.
use go_template_aerospike.Prelude.{
  Bool, true, false, Option, none, some, List, [], ◌∷◌, ◌≡◌, refl, ap, arith, if◌then◌else◌, ◌&&◌,
  ◌||◌, Bytes, ◌++◌, ◌∙◌, Bool-cases, inl, inr,
}
use go_template_aerospike.Aerospike.{
  Bins, Fields, bin, over, under, merge, Key, eq_key, eq_key_iff, QueryItem, item, Statement,
  matches, names, matched, recordset, Client, IsFaithful,
}

abbrev pub Store : Type 0
Store = List (Key × Bins)

unfoldable pub get_bins : Key → Store → Option Bins
get_bins k [] = none
get_bins k ((j, bins) ∷ db) = let rest = get_bins k db in if eq_key j k then some bins else rest

abbrev shown : Option Bins → Option Fields
shown none = none
shown (some bins) = some (λ name. bin name bins)

unfoldable pub get : Key → Store → Option Fields
unfolding get_bins
get k db = shown (get_bins k db)

abbrev old_bins : Option Bins → Bins
old_bins none = []
old_bins (some bins) = bins

unfoldable pub without : Key → Store → Store
without k [] = []
without k ((j, bins) ∷ db) =
    let rest = without k db in if eq_key j k then rest else (j, bins) ∷ rest

row_if : Bool → Key → Bins → List QueryItem → List QueryItem
row_if true k bins rest = item (some (record { key = some k; bins = bins })) ∷ rest
row_if false k bins rest = rest

row_of : Statement → Key → Option Bins → List QueryItem → List QueryItem
unfolding row_if
row_of q k none rest = rest
row_of q k (some bins) rest = row_if (matches q k (λ name. bin name bins)) k bins rest

-- Each key with the record that `get` shows for it.
select : Statement → Store → Store → List QueryItem
unfolding row_of
select q db [] = []
select q db ((k, _) ∷ more) = row_of q k (get_bins k db) (select q db more)

unfoldable pub memory : Client Store
unfolding without select get_bins
memory = record {
  new_key = λ k. none;
  put_bins = λ p k bins db. (none, (k, bins ++ old_bins (get_bins k db)) ∷ db);
  delete = λ p k db. (none, without k db);
  query = λ q db. recordset (select q db db);
}

get_bins-without :
    (k j : Key) (db : Store)
    → get_bins j (without k db) ≡ (if eq_key k j then none else get_bins j db)
unfolding get_bins without
get_bins-without k j [] = ground arith
get_bins-without k j ((i, bins) ∷ db) =
    ground (arith, get_bins-without k j db, eq_key_iff i k, eq_key_iff i j, eq_key_iff k j)

get-without :
    (k j : Key) (db : Store) → get j (without k db) ≡ (if eq_key k j then none else get j db)
unfolding get
get-without k j db = rw (get_bins-without k j db) (ground arith)

bin-append : (name : Bytes) (xs ys : Bins) → bin name (xs ++ ys) ≡ over (bin name xs) (bin name ys)
unfolding bin
bin-append name [] ys = refl
bin-append name ((n, v) ∷ xs) ys = ground (arith, bin-append name xs ys)

old_bins-shown : (o : Option Bins) (name : Bytes) → bin name (old_bins o) ≡ under (shown o) name
old_bins-shown none name = unfold bin in refl
old_bins-shown (some bins) name = refl

shown-append :
    (bins : Bins) (o : Option Bins)
    → shown (some (bins ++ old_bins o)) ≡ some (merge bins (shown o))
shown-append bins o =
    let at : (name : Bytes) → bin name (bins ++ old_bins o) ≡ merge bins (shown o) name = λ name.
      bin-append name bins (old_bins o) ∙ ap (over (bin name bins)) (old_bins-shown o name) in
    λ i. some (λ name. at name i)

get-put :
    (k j : Key) (bins : Bins) (db : Store)
    → get j ((k, bins ++ old_bins (get_bins k db)) ∷ db)
      ≡ (if eq_key k j then some (merge bins (get k db)) else get j db)
unfolding get get_bins
get-put k j bins db = elim (Bool-cases (eq_key k j)) [
  | inl same ↦ rw same (shown-append bins (get_bins k db))
  | inr other ↦ rw other refl
]

holds : Key → Store → Bool
holds k [] = false
holds k ((j, _) ∷ db) = let rest = holds k db in if eq_key j k then true else rest

get-holds : (k : Key) (db : Store) → holds k db ≡ false → get_bins k db ≡ none
unfolding get_bins holds
get-holds k [] h = refl
get-holds k ((j, bins) ∷ db) h = ground (arith, get-holds k db)

names-row_if :
    (b : Bool) (k j : Key) (bins : Bins) (rest : List QueryItem)
    → names k (row_if b j bins rest) ≡ (b && eq_key j k || names k rest)
unfolding names row_if
names-row_if true k j bins rest = refl
names-row_if false k j bins rest = refl

names-row_of :
    (q : Statement) (o : Option Bins) (k j : Key) (rest : List QueryItem)
    → names k (row_of q j o rest) ≡ (matched q j (shown o) && eq_key j k || names k rest)
unfolding row_of
names-row_of q none k j rest = refl
names-row_of q (some bins) k j rest =
    names-row_if (matches q j (λ name. bin name bins)) k j bins rest

matched_at :
    (q : Statement) (k j : Key) (db : Store)
    → eq_key j k ≡ true
    → matched q j (shown (get_bins j db)) ≡ matched q k (shown (get_bins k db))
matched_at q k j db h = ap (λ i. matched q i (shown (get_bins i db))) ((eq_key_iff j k).0 h)

names-select :
    (q : Statement) (k : Key) (db more : Store)
    → names k (select q db more)
      ≡ (if holds k more then matched q k (shown (get_bins k db)) else false)
unfolding select holds
names-select q k db [] = unfold names in refl
names-select q k db ((j, bins) ∷ more) =
    rw (names-row_of q (get_bins j db) k j (select q db more))
      (rw (names-select q k db more) (ground (arith, matched_at q k j db)))

query_exact :
    (q : Statement) (k : Key) (db : Store) → names k (select q db db) ≡ matched q k (get k db)
unfolding get
query_exact q k db = rw (names-select q k db db) (ground (arith, get-holds k db))

recordset-injective : {a b : List QueryItem} → recordset a ≡ recordset b → a ≡ b
recordset-injective e = cc

pub memory-IsFaithful : IsFaithful memory get
unfolding memory
memory-IsFaithful = record {
  get-delete = λ p k j db _. get-without k j db;
  get-put = λ p k j bins db _ _. get-put k j bins db;
  query_exact = λ q db items k e _. rw (← recordset-injective e) (query_exact q k db);
}
