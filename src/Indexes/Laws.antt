-- ===== src/Indexes/Laws.antt =====
-- The indexes that are made (internal/service/main_service.go).
use go_template_aerospike.Prelude.{
  true, List, [], ◌∷◌, ◌++◌, ◌≡◌, ◌∙◌, keep, map, Bool-cases, inl, inr, append_assoc, append-nil,
  sym,
}
use go_template_aerospike.Indexes.{Field, IndexModel, compound, is_unique, create_index}

-- A collection that records what is asked of it.
abbrev pub recorded : IndexModel → List IndexModel → List IndexModel
recorded i c = c ++ i ∷ []

abbrev pub index_of : Field → IndexModel
index_of f = record { key = compound f; unique = true }

create_index-from :
    (fields : List Field) (c : List IndexModel)
    → create_index recorded fields c ≡ c ++ map index_of (keep is_unique fields)
unfolding create_index
create_index-from [] c = sym (append-nil c)
create_index-from (f ∷ fields) c = elim (Bool-cases (is_unique f)) [
  | inl yes_unique ↦
      rw (yes_unique, create_index)
        (create_index-from fields (c ++ index_of f ∷ [])
          ∙ append_assoc c (index_of f ∷ []) (map index_of (keep is_unique fields)))
  | inr not_unique ↦ rw (not_unique, create_index) (create_index-from fields c)
]

-- One unique index is asked for each field whose tag is `unique`, in the order of the fields, over
-- the field and those that it names.
pub create_index-keep :
    (fields : List Field) → create_index recorded fields [] ≡ map index_of (keep is_unique fields)
create_index-keep fields = create_index-from fields []
