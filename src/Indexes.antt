-- ===== src/Indexes.antt =====
-- `createIndex` (internal/service/main_service.go): the MongoDB indexes that the tags of a struct's
-- fields ask for. Nothing calls `initColl`, its only caller.
pub mod Laws
use go_template_aerospike.Prelude.{
  Bytes, text, eq_bytes, Bool, not, List, [], ◌∷◌, split, if◌then◌else◌,
}

-- A field by its tags; an absent one is empty.
pub record Field : Type 0 where
  pub bson : Bytes
  pub compound_with : Bytes
  pub index : Bytes

pub record IndexModel : Type 0 where
  pub key : List Bytes
  pub unique : Bool

-- The fields' names that the index is over.
unfoldable pub compound : Field → List Bytes
unfolding split
compound f =
    if not (eq_bytes f.compound_with []) then f.bson ∷ split b',' f.compound_with else f.bson ∷ []

unfoldable pub is_unique : Field → Bool
is_unique f = eq_bytes f.index (text "unique")

-- The loop over the fields. The collection changes with each index that is asked for; the result of
-- `CreateOneIndex` is dropped.
unfoldable pub create_index :
    {Collection : Type 0}
    → (IndexModel → Collection → Collection)
    → List Field
    → Collection
    → Collection
unfolding compound is_unique
create_index create_one [] c = c
create_index create_one (f ∷ fields) c =
    create_index create_one fields
      (if is_unique f then create_one (record { key = compound f; unique = is_unique f }) c else c)
