-- ===== src/Files/Search.antt =====
-- `SearchFiles` and `SearchDirs` of internal/service/util/file.go.
use go_template_aerospike.Prelude.{
  ℕ, zero, suc, Bytes, Bool, true, false, Option, none, some, List, [], ◌∷◌, ◌++◌, if◌then◌else◌,
}
use go_template_aerospike.Query.{Result, ok, error}
use go_template_aerospike.Paths.{join_path}
use go_template_aerospike.Files.{DirEntry}

-- A path of a result: with its folder, or the bare name.
abbrev pub shown : Bool → Bytes → Bytes → Bytes
shown include dir name = if include then join_path dir name else name

-- A result of a search, or that its fuel ran out.
abbrev pub Search : Type 0 → Type 0
Search Error = Option (Result Error (List Bytes))

abbrev pub extend : {Error : Type 0} → Search Error → (List Bytes → Search Error) → Search Error
extend none k = none
extend (some (error e)) k = some (error e)
extend (some (ok found)) k = k found

module _ {Error : Type 0} (again : Bytes → Search Error) (matches : Bytes → Bool) (dir : Bytes)
    (include : Bool) where
  -- What one entry adds to the results; the Booleans are `recurse` and `entry.IsDir()`.
  abbrev pub file_entry : Bool → Bool → Bytes → Search Error
  file_entry true true name = again (join_path dir name)
  file_entry false true name = some (ok [])
  file_entry r false name = some (ok (if matches name then shown include dir name ∷ [] else []))

  abbrev pub dir_entry : Bool → Bool → Bytes → Search Error
  dir_entry true true name =
      extend (again (join_path dir name))
        λ found. some (ok ((if matches name then shown include dir name ∷ [] else []) ++ found))
  dir_entry false true name = some (ok (if matches name then shown include dir name ∷ [] else []))
  dir_entry r false name = some (ok [])

-- The loop over the entries.
unfoldable pub search_entries :
    {Error : Type 0} → (Bool → Bytes → Search Error) → List Bytes → List DirEntry → Search Error
search_entries entry results [] = some (ok results)
search_entries entry results (e ∷ es) =
    extend (entry e.is_dir e.name) λ found. search_entries entry (results ++ found) es

module _ {Error : Type 0} (compile : Bytes → Result Error (Bytes → Bool))
    (read_dir : Bytes → Result Error (List DirEntry)) where
  -- Fuel: the depth to which the folders are read. The file system does not change meanwhile.
  unfoldable pub search_files : ℕ → Bytes → Bytes → Bool → Bool → Search Error
  unfolding search_entries
  search_files zero dir pattern recurse include = none
  search_files (suc n) dir pattern recurse include = elim (compile pattern) [
    | error e ↦ some (error e)
    | ok matches ↦ elim (read_dir dir) [
      | error e ↦ some (error e)
      | ok entries ↦
          search_entries
            (file_entry (λ sub. search_files n sub pattern recurse include) matches dir include
              recurse)
            [] entries
    ]
  ]

  unfoldable pub search_dirs : ℕ → Bytes → Bytes → Bool → Bool → Search Error
  unfolding search_entries
  search_dirs zero dir pattern recurse include = none
  search_dirs (suc n) dir pattern recurse include = elim (compile pattern) [
    | error e ↦ some (error e)
    | ok matches ↦ elim (read_dir dir) [
      | error e ↦ some (error e)
      | ok entries ↦
          search_entries
            (dir_entry (λ sub. search_dirs n sub pattern recurse include) matches dir include
              recurse)
            [] entries
    ]
  ]
