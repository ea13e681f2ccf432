-- ===== src/Aerospike.antt =====
-- The interface of the Aerospike client as internal/service/track_history.go uses it. The client is
-- third-party code: its operations are the fields of `Client`, and what they are documented to do is
-- the record `IsFaithful`, over a view of the database by keys.
pub mod Memory
use go_template_aerospike.Prelude.{
  ℕ, ℤ, Bytes, eq_bytes, Bool, true, false, Option, none, some, List, [], ◌∷◌, ◌≡◌, ◌⊎◌,
  if◌then◌else◌, ◌&&◌, ◌||◌, eqb_ℤ, eq_bytes_iff, ◌↔◌, inl, inr, arith, refl, All, ◌≢◌,
}
use go_template_aerospike.Track.{Float32, Float64}

-- The value of a bin, with its dynamic Go type; `other` is a type that no reader handles.
pub data BinValue : Type 0 where
  nil_value : BinValue
  int int8 int16 int32 int64 uint8 uint16 uint32 uint64 : ℤ → BinValue
  float32 : Float32 → BinValue
  float64 : Float64 → BinValue
  other : BinValue

-- `as.BinMap`
abbrev pub Bins : Type 0
Bins = List (Bytes × BinValue)

-- `value, ok := bins[key]`
unfoldable pub bin : Bytes → Bins → Option BinValue
bin name [] = none
bin name ((n, v) ∷ bins) = let rest = bin name bins in if eq_bytes n name then some v else rest

-- What a record holds under each name of a bin.
abbrev pub Fields : Type 0
Fields = Bytes → Option BinValue

abbrev pub over : Option BinValue → Option BinValue → Option BinValue
over none old = old
over (some v) old = some v

abbrev pub under : Option Fields → Fields
under none name = none
under (some fields) name = fields name

-- The bins that are written, and the others as before.
abbrev pub merge : Bins → Option Fields → Fields
merge bins old name = over (bin name bins) (under old name)

-- A nil value would remove its bin.
abbrev pub HasValues : Bins → Type 0
HasValues bins = All (λ b. b.1 ≢ nil_value) bins

-- `NewWritePolicy` of a generation and an expiration, and its field `SendKey`; the action on a record
-- that exists is the default `UPDATE`, which merges bins.
pub record WritePolicy : Type 0 where
  pub generation : ℕ
  pub expiration : ℕ
  pub send_key : Bool

pub record Key : Type 0 where
  pub namespace : Bytes
  pub set_name : Bytes
  pub user_key : Bytes

abbrev pub eq_key : Key → Key → Bool
eq_key a b =
    eq_bytes a.namespace b.namespace
    && (eq_bytes a.set_name b.set_name && eq_bytes a.user_key b.user_key)

pub eq_key_iff : (a b : Key) → (eq_key a b ≡ true) ↔ (a ≡ b)
eq_key_iff a b = ground (
  arith,
  eq_bytes_iff a.namespace b.namespace,
  eq_bytes_iff a.set_name b.set_name,
  eq_bytes_iff a.user_key b.user_key,
)

pub eq_key_refl : (a : Key) → eq_key a a ≡ true
eq_key_refl a = (eq_key_iff a a).1 refl

-- An error of the client, by its result code.
pub data AsError : Type 0 where
  key_not_found : AsError
  index_found : AsError
  other_code : ℕ → AsError

-- A record of a result set, whose key may be missing.
pub record Row : Type 0 where
  pub key : Option Key
  pub bins : Bins

-- What a result set yields: an error, or a record that may be nil.
pub data QueryItem : Type 0 where
  item_error : AsError → QueryItem
  item : Option Row → QueryItem

-- An equality filter over a bin of a set.
pub record Statement : Type 0 where
  pub namespace : Bytes
  pub set_name : Bytes
  pub bin_name : Bytes
  pub bin_value : ℤ
  pub include_bins : Bool

pub data QueryResult : Type 0 where
  query_error : AsError → QueryResult
  recordset : List QueryItem → QueryResult

pub QueryResult-cases :
    (r : QueryResult)
    → ((e : AsError) × (r ≡ query_error e)) ⊎ ((items : List QueryItem) × (r ≡ recordset items))
QueryResult-cases (query_error e) = inl (e, refl)
QueryResult-cases (recordset items) = inr (items, refl)

pub record Client (Db : Type 0) : Type 0 where
  -- the error of `NewKey`, if it has one
  pub new_key : Key → Option AsError
  pub put_bins : WritePolicy → Key → Bins → Db → Option AsError × Db
  pub delete : WritePolicy → Key → Db → Option AsError × Db
  -- the records that match at the time of the call
  pub query : Statement → Db → QueryResult

-- The integer that a bin holds, of whatever width it was written.
abbrev integer_of : Option BinValue → Option ℤ
integer_of (some (int v)) = some v
integer_of (some (int8 v)) = some v
integer_of (some (int16 v)) = some v
integer_of (some (int32 v)) = some v
integer_of (some (int64 v)) = some v
integer_of (some (uint8 v)) = some v
integer_of (some (uint16 v)) = some v
integer_of (some (uint32 v)) = some v
integer_of (some (uint64 v)) = some v
integer_of _ = none

abbrev equals : ℤ → Option ℤ → Bool
equals x none = false
equals x (some y) = eqb_ℤ x y

-- A record of the set matches the filter.
unfoldable pub matches : Statement → Key → Fields → Bool
matches q k fields =
    eq_bytes k.namespace q.namespace
    && (eq_bytes k.set_name q.set_name && equals q.bin_value (integer_of (fields q.bin_name)))

-- The record of a result set with this key, if it has one.
unfoldable pub names : Key → List QueryItem → Bool
names k [] = false
names k (item_error e ∷ rest) = names k rest
names k (item none ∷ rest) = names k rest
names k (item (some row) ∷ rest) =
    let others = names k rest in elim row.key [ none ↦ others | some j ↦ eq_key j k || others ]

-- The stream of a result set carries an error.
unfoldable pub has_error : List QueryItem → Bool
has_error [] = false
has_error (item_error e ∷ rest) = true
has_error (item row ∷ rest) = has_error rest

abbrev pub matched : Statement → Key → Option Fields → Bool
matched q k none = false
matched q k (some fields) = matches q k fields

-- What the client is documented to do, over `get`, which shows the record that a key holds.
pub record IsFaithful {Db : Type 0} (client : Client Db) (get : Key → Db → Option Fields)
    : Type 0 where
  -- a delete that succeeds, or finds nothing, leaves no record at its key, and all others
  pub get-delete :
      (p : WritePolicy) (k j : Key) (db : Db)
      → ((client.delete p k db).0 ≡ none) ⊎ ((client.delete p k db).0 ≡ some key_not_found)
      → get j (client.delete p k db).1 ≡ (if eq_key k j then none else get j db)
  -- a write that succeeds merges its bins with those that the record has, and leaves all other records
  pub get-put :
      (p : WritePolicy) (k j : Key) (bins : Bins) (db : Db)
      → HasValues bins
      → (client.put_bins p k bins db).0 ≡ none
      → get j (client.put_bins p k bins db).1
        ≡ (if eq_key k j then some (merge bins (get k db)) else get j db)
  -- a result set without an error names the records that match, and no others
  pub query_exact :
      (q : Statement) (db : Db) (items : List QueryItem) (k : Key)
      → client.query q db ≡ recordset items
      → has_error items ≡ false
      → names k items ≡ matched q k (get k db)
