-- ===== src/Files/Searching.antt =====
-- `SearchFiles` and `SearchDirs` against the tree of the folder.
use go_template_aerospike.Prelude.{
  ℕ, zero, suc, Bytes, Bool, true, false, some, List, [], ◌∷◌, ◌++◌, ◌≡◌, refl, sym, ap, ◌∙◌,
  append-nil, append_assoc, if◌then◌else◌, ◌<◌, ◌≤◌, arith,
}
use go_template_aerospike.Query.{Result, ok}
use go_template_aerospike.Paths.{join_path}
use go_template_aerospike.Files.{DirEntry}
use go_template_aerospike.Files.Search.{
  shown, Search, file_entry, dir_entry, search_entries, search_files, search_dirs,
}
use Prim.Native.Nat.{max}

-- A folder's entries in the order that `os.ReadDir` lists them, with what the folders among them hold.
pub data Listing : Type 0 where
  end : Listing
  file : Bytes → Listing → Listing
  folder : Bytes → Listing → Listing → Listing

abbrev pub entries_of : Listing → List DirEntry
entries_of end = []
entries_of (file n rest) = record { name = n; is_dir = false } ∷ entries_of rest
entries_of (folder n sub rest) = record { name = n; is_dir = true } ∷ entries_of rest

abbrev pub depth : Listing → ℕ
depth end = 0
depth (file n rest) = depth rest
depth (folder n sub rest) = max (suc (depth sub)) (depth rest)

-- The files below a folder, each with its folder.
abbrev pub files_in : Bool → Bytes → Listing → List (Bytes × Bytes)
files_in r dir end = []
files_in r dir (file n rest) = (dir, n) ∷ files_in r dir rest
files_in true dir (folder n sub rest) =
    files_in true (join_path dir n) sub ++ files_in true dir rest
files_in false dir (folder n sub rest) = files_in false dir rest

-- The folders below a folder, each before what it holds.
abbrev pub dirs_in : Bool → Bytes → Listing → List (Bytes × Bytes)
dirs_in r dir end = []
dirs_in r dir (file n rest) = dirs_in r dir rest
dirs_in true dir (folder n sub rest) =
    (dir, n) ∷ (dirs_in true (join_path dir n) sub ++ dirs_in true dir rest)
dirs_in false dir (folder n sub rest) = (dir, n) ∷ dirs_in false dir rest

abbrev one : (Bytes → Bool) → Bool → Bytes → Bytes → List Bytes
one matches include dir name = if matches name then shown include dir name ∷ [] else []

-- The results that a list of files stands for.
abbrev pub found : (Bytes → Bool) → Bool → List (Bytes × Bytes) → List Bytes
found matches include [] = []
found matches include ((d, n) ∷ fs) = one matches include d n ++ found matches include fs

found-append :
    (matches : Bytes → Bool) (include : Bool) (xs ys : List (Bytes × Bytes))
    → found matches include (xs ++ ys) ≡ found matches include xs ++ found matches include ys
found-append matches include [] ys = refl
found-append matches include ((d, n) ∷ xs) ys =
    ap (λ l. one matches include d n ++ l) (found-append matches include xs ys)
    ∙ sym (
        append_assoc (one matches include d n) (found matches include xs)
          (found matches include ys))

module _ {Error : Type 0} (read_dir : Bytes → Result Error (List DirEntry)) where
  -- What is on the disk below the folder.
  abbrev pub IsBelowListed : Bytes → Listing → Type 0
  IsBelowListed dir end = Unit
  IsBelowListed dir (file n rest) = IsBelowListed dir rest
  IsBelowListed dir (folder n sub rest) =
      (read_dir (join_path dir n) ≡ ok (entries_of sub))
      × IsBelowListed (join_path dir n) sub
      × IsBelowListed dir rest

  abbrev pub IsListed : Bytes → Listing → Type 0
  IsListed dir tree = (read_dir dir ≡ ok (entries_of tree)) × IsBelowListed dir tree

-- What a search finds of a folder, with or without what its folders hold.
module _ {Error : Type 0} (read_dir : Bytes → Result Error (List DirEntry))
    (again : Bytes → Search Error) (matches : Bytes → Bool) (include recurse : Bool) (n : ℕ) where
  -- The recursive calls find what the folders of a depth below `n` hold.
  abbrev Finds : (Bool → Bytes → Listing → List (Bytes × Bytes)) → Type 0
  Finds which =
      (dir : Bytes) (tree : Listing)
      → depth tree < n
      → IsListed read_dir dir tree
      → again dir ≡ some (ok (found matches include (which recurse dir tree)))

-- The results so far, then an entry's, then those of the rest.
add_found :
    (matches : Bytes → Bool) (include : Bool) (results : List Bytes) (xs ys : List (Bytes × Bytes))
    → (results ++ found matches include xs) ++ found matches include ys
      ≡ results ++ found matches include (xs ++ ys)
add_found matches include results xs ys =
    append_assoc results (found matches include xs) (found matches include ys)
    ∙ ap (λ l. results ++ l) (sym (found-append matches include xs ys))

module _ {Error : Type 0} (read_dir : Bytes → Result Error (List DirEntry))
    (again : Bytes → Search Error) (matches : Bytes → Bool) (include : Bool) (n : ℕ) where
  search_entries-files :
      (recurse : Bool)
      → Finds read_dir again matches include recurse n files_in
      → (dir : Bytes) (results : List Bytes) (tree : Listing) → depth tree ≤ n
      → IsBelowListed read_dir dir tree
      → search_entries (file_entry again matches dir include recurse) results (entries_of tree)
        ≡ some (ok (results ++ found matches include (files_in recurse dir tree)))
  unfolding search_entries
  search_entries-files recurse ih dir results end small h =
      ap (λ l. some (ok l)) (sym (append-nil results))
  search_entries-files recurse ih dir results (file name rest) small h =
      search_entries-files recurse ih dir (results ++ one matches include dir name) rest small h
      ∙ ap (λ l. some (ok l))
          (append_assoc results (one matches include dir name)
            (found matches include (files_in recurse dir rest)))
  search_entries-files true ih dir results (folder name sub rest) small (listed, below, h) =
      let inner = files_in true (join_path dir name) sub in
      rw (ih (join_path dir name) sub (omega (arith, small)) (listed, below)) (
        search_entries-files true ih dir (results ++ found matches include inner) rest
          (omega (arith, small)) h
        ∙ ap (λ l. some (ok l)) (add_found matches include results inner (files_in true dir rest)))
  search_entries-files false ih dir results (folder name sub rest) small (listed, below, h) =
      ap (λ l. search_entries (file_entry again matches dir include false) l (entries_of rest))
        (append-nil results)
      ∙ search_entries-files false ih dir results rest (omega (arith, small)) h

  search_entries-dirs :
      (recurse : Bool)
      → Finds read_dir again matches include recurse n dirs_in
      → (dir : Bytes) (results : List Bytes) (tree : Listing) → depth tree ≤ n
      → IsBelowListed read_dir dir tree
      → search_entries (dir_entry again matches dir include recurse) results (entries_of tree)
        ≡ some (ok (results ++ found matches include (dirs_in recurse dir tree)))
  unfolding search_entries
  search_entries-dirs recurse ih dir results end small h =
      ap (λ l. some (ok l)) (sym (append-nil results))
  search_entries-dirs recurse ih dir results (file name rest) small h =
      ap (λ l. search_entries (dir_entry again matches dir include recurse) l (entries_of rest))
        (append-nil results)
      ∙ search_entries-dirs recurse ih dir results rest small h
  search_entries-dirs true ih dir results (folder name sub rest) small (listed, below, h) =
      let inner = (dir, name) ∷ dirs_in true (join_path dir name) sub in
      rw (ih (join_path dir name) sub (omega (arith, small)) (listed, below)) (
        search_entries-dirs true ih dir (results ++ found matches include inner) rest
          (omega (arith, small)) h
        ∙ ap (λ l. some (ok l)) (add_found matches include results inner (dirs_in true dir rest)))
  search_entries-dirs false ih dir results (folder name sub rest) small (listed, below, h) =
      search_entries-dirs false ih dir (results ++ one matches include dir name) rest
        (omega (arith, small)) h
      ∙ ap (λ l. some (ok l))
          (append_assoc results (one matches include dir name)
            (found matches include (dirs_in false dir rest)))

module _ {Error : Type 0} (compile : Bytes → Result Error (Bytes → Bool))
    (read_dir : Bytes → Result Error (List DirEntry)) (pattern : Bytes) (matches : Bytes → Bool)
    (compiles : compile pattern ≡ ok matches) where
  -- On a folder whose tree is less deep than the fuel, for a pattern that compiles: `SearchFiles` returns
  -- the matching files of the folder, and of the folders below it only if `recurse` is set, in the
  -- order of the tree; each with its folder if `includeDirPath` is set, and by its bare name otherwise.
  pub search_files-files_in :
      (n : ℕ) (dir : Bytes) (recurse include : Bool) (tree : Listing)
      → depth tree < n
      → IsListed read_dir dir tree
      → search_files compile read_dir n dir pattern recurse include
        ≡ some (ok (found matches include (files_in recurse dir tree)))
  unfolding search_files
  search_files-files_in zero dir recurse include tree small h = absurd (omega (arith, small))
  search_files-files_in (suc n) dir recurse include tree small (listed, below) =
      let ih : Finds read_dir (λ sub. search_files compile read_dir n sub pattern recurse include)
          matches include recurse n files_in =
        λ sub t. search_files-files_in n sub recurse include t in
      rw (search_files, compiles, listed)
        (search_entries-files read_dir
          (λ sub. search_files compile read_dir n sub pattern recurse include) matches include n
          recurse ih dir [] tree (omega (arith, small)) below)

  -- On a folder whose tree is less deep than the fuel, for a pattern that compiles: `SearchDirs` returns
  -- the matching folders below the folder, each before those inside it, the deeper ones only if
  -- `recurse` is set; a folder that does not match is searched as well.
  pub search_dirs-dirs_in :
      (n : ℕ) (dir : Bytes) (recurse include : Bool) (tree : Listing)
      → depth tree < n
      → IsListed read_dir dir tree
      → search_dirs compile read_dir n dir pattern recurse include
        ≡ some (ok (found matches include (dirs_in recurse dir tree)))
  unfolding search_dirs
  search_dirs-dirs_in zero dir recurse include tree small h = absurd (omega (arith, small))
  search_dirs-dirs_in (suc n) dir recurse include tree small (listed, below) =
      let ih : Finds read_dir (λ sub. search_dirs compile read_dir n sub pattern recurse include)
          matches include recurse n dirs_in =
        λ sub t. search_dirs-dirs_in n sub recurse include t in
      rw (search_dirs, compiles, listed)
        (search_entries-dirs read_dir
          (λ sub. search_dirs compile read_dir n sub pattern recurse include) matches include n
          recurse ih dir [] tree (omega (arith, small)) below)
