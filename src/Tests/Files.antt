-- ===== src/Tests/Files.antt =====
-- Files and folders.
use go_template_aerospike.Prelude.{
  Bytes, text, eq_bytes, Bool, true, false, none, some, List, [], ◌∷◌, ◌≡◌, refl, arith, All,
  if◌then◌else◌, Dict, get_key, split,
}
use go_template_aerospike.Query.{Result, ok, error}
use go_template_aerospike.Paths.{clean, join_path, dir_of, rel, push}
use go_template_aerospike.Paths.Below.{IsBelow, IsLocal}
use go_template_aerospike.Files.{
  Visit, Os, Reader, DirEntry, ZipEntry, copy_file, save_file_from_reader, proceed,
}
use go_template_aerospike.Files.Zip.{zip_visit, unzip, unzip_entries}
use go_template_aerospike.Files.Search.{search_files}
use go_template_aerospike.Files.System.{read_file}
use go_template_aerospike.Files.Saving.{read_file-copy_file, read_file-copy_file-same}
use go_template_aerospike.Files.Archives.{
  unzip-keeps, unzip_entries-escape, unzip_entries-zip_visit, names,
}
use go_template_aerospike.Files.Searching.{
  Listing, end, file, folder, search_files-files_in, found, files_in, entries_of,
}
use go_template_aerospike.Tests.Disk.{disk, view, disk-IsFileSystem}

abbrev stored : Dict Bytes
stored = (text "a/old", text "content") ∷ (text "b", text "other") ∷ []

copy_file_example :
    (read_file view (text "c/new") (copy_file disk (text "a/old") (text "c/new") stored).0
      ≡ some (text "content"))
    × (read_file view (text "a/old") (copy_file disk (text "a/old") (text "c/new") stored).0
        ≡ some (text "content"))
unfolding copy_file clean dir_of push get_key
copy_file_example =
    read_file-copy_file disk view disk-IsFileSystem (text "a/old") (text "c/new") (text "content")
      stored (ground arith) (ground arith) refl refl

copy_file_same_example :
    (read_file view (text "a/old") (copy_file disk (text "a/old") (text "a/./old") stored).0
      ≡ some [])
    × (read_file view (text "a/./old") (copy_file disk (text "a/old") (text "a/./old") stored).0
        ≡ some [])
unfolding copy_file clean dir_of push get_key
copy_file_same_example =
    read_file-copy_file-same disk view disk-IsFileSystem (text "a/old") (text "a/./old") stored
      (ground arith) refl refl

abbrev safe_entry : ZipEntry Bytes
safe_entry = record {
  name = text "sub/./file";
  is_dir = false;
  open_entry = ok (record { bytes = text "x"; failure = none });
}

-- A system that records the names of the files that it creates.
abbrev recorder : Os Bytes (List Bytes) Bytes
recorder = record {
  mkdir_all = λ p fs. (fs, ok tt);
  write_file = λ p c fs. (p ∷ fs, ok tt);
  create = λ p fs. (p ∷ fs, ok p);
  open_file = λ p fs. ok p;
  reader_of = λ n fs. record { bytes = []; failure = none };
  copy = λ n r fs. (fs, ok tt);
  remove_all = λ p fs. (fs, ok tt);
  stat = λ p fs. ok false;
  read_dir = λ p fs. ok [];
  open_zip = λ p fs. ok (safe_entry ∷ []);
  walk = λ p fs. [];
  header = λ v. none;
  create_header = λ name done. none;
  finish = λ n entries fs. (fs, ok tt);
  compile = λ pattern. ok (eq_bytes pattern);
  rel_error = text "not relative";
}

safe_entry-IsLocal : All (λ e. IsLocal e.name) (safe_entry ∷ [])
unfolding split
safe_entry-IsLocal =
    ((λ e. ground (arith, e), (λ e. ground (arith, e), (λ e. ground (arith, e), tt))), tt)

unzip_example : All (IsBelow (text "out")) (unzip recorder (text "a.zip") (text "out") []).0
unfolding unzip_entries
unzip_example =
    unzip-keeps recorder (All (IsBelow (text "out"))) (text "out") (ground arith) (λ p fs h. h)
      (λ p fs below h. (below, h)) (λ p n r fs below e h. h) (text "a.zip") (safe_entry ∷ []) []
      refl safe_entry-IsLocal tt

abbrev one_byte : Reader Bytes
one_byte = record { bytes = text "x"; failure = none }

escape_example :
    unzip_entries recorder
      (text "data/out")
      (record { name = text "../cron"; is_dir = false; open_entry = ok one_byte } ∷ [])
      []
    ≡ proceed
        (save_file_from_reader recorder (join_path (text "data") (text "cron")) one_byte [])
        (λ _ fs. unzip_entries recorder (text "data/out") [] fs)
escape_example =
    unzip_entries-escape recorder (text "data") (text "out") (text "cron") one_byte [] []
      (ground arith) (ground arith, ground arith, ground arith)
      (λ e. ground (arith, e), (λ e. ground (arith, e), (λ e. ground (arith, e), tt)))

-- The folder `top` and what it holds.
abbrev tree : Listing
tree =
    file (text "x")
      (folder (text "sub") (file (text "y") (file (text "x") end)) (file (text "z") end))

abbrev read_tree : Bytes → Result Bytes (List DirEntry)
read_tree p =
    if eq_bytes p (text "top")
    then ok (entries_of tree)
    else if eq_bytes p (text "top/sub")
    then ok (entries_of (file (text "y") (file (text "x") end)))
    else error (text "no such folder")

abbrev compile_text : Bytes → Result Bytes (Bytes → Bool)
compile_text pattern = ok (eq_bytes pattern)

search_files_example :
    search_files compile_text read_tree 3 (text "top") (text "x") true true
    ≡ some (ok (found (eq_bytes (text "x")) true (files_in true (text "top") tree)))
unfolding join_path clean push
search_files_example =
    search_files-files_in compile_text read_tree (text "x") (eq_bytes (text "x")) refl 3
      (text "top") true true tree (omega arith) (refl, (refl, tt, tt))

found_test :
    found (eq_bytes (text "x")) true (files_in true (text "top") tree)
    ≡ text "top/x" ∷ text "top/sub/x" ∷ []
unfolding join_path clean push
found_test = refl

clean_test : clean (text "a//b/../c/.") ≡ text "a/c"
unfolding clean push
clean_test = refl

join_test : join_path (text "out") (text "../../etc") ≡ text "../etc"
unfolding join_path clean push
join_test = refl

dir_test : dir_of (text "a/b/c.txt") ≡ text "a/b"
unfolding dir_of push
dir_test = refl

rel_test : rel (text "a/b") (text "a/b/c/d") ≡ some (text "c/d")
unfolding rel push
rel_test = refl

abbrev visited : Visit Bytes
visited = record { path = text "/data/a/b"; is_dir = false; failure = none }

a_b-IsLocal : IsLocal (text "a/b")
unfolding split
a_b-IsLocal = (λ e. ground (arith, e), (λ e. ground (arith, e), tt))

zip_visit_example :
    (n : Bytes) × (names (zip_visit recorder (text "/data") visited [] []).0 ≡ some n ∷ [])
    × (unzip_entries recorder
          (text "/data")
          (record { name = n; is_dir = false; open_entry = ok one_byte } ∷ [])
          []
        ≡ proceed
            (save_file_from_reader recorder (text "/data/a/b") one_byte [])
            (λ _ fs. unzip_entries recorder (text "/data") [] fs))
unfolding zip_visit rel join_path clean push
zip_visit_example =
    unzip_entries-zip_visit recorder (text "data") (text "a/b") visited [] [] [] one_byte []
      a_b-IsLocal refl refl refl
