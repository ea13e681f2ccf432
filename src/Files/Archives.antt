-- ===== src/Files/Archives.antt =====
-- `Unzip` and `Zip`: where the entries of an archive are written, and which entries an archive gets.
use go_template_aerospike.Prelude.{
  Bytes, text, Bool, true, false, Option, none, some, List, [], ◌∷◌, ◌++◌, All, Lacks, Option-cases,
  inl, inr, ◌≡◌, ◌≢◌, refl, sym, ap, ◌∙◌, arith, append_assoc, append-nil,
}
use go_template_aerospike.Query.{Result, ok, error}
use go_template_aerospike.Paths.{join_path, dir_of, rel}
use go_template_aerospike.Paths.Relative.{join_path-rel}
use go_template_aerospike.Paths.Below.{
  IsBelow, IsLocal, IsOrdinary, join_path-IsBelow, join_path-parent,
}
use go_template_aerospike.Files.{Os, Reader, ZipEntry, Visit, save_file_from_reader, proceed}
use go_template_aerospike.Files.Zip.{
  unzip, unzip_entry, unzip_entries, zip_visit, zip_visits, zip_headed, zip_checked, zip_named,
  zip_created, zip_opened,
}
use go_template_aerospike.Files.System.{proceed-keeps}

module _ {Error Fs Handle : Type 0} (os : Os Error Fs Handle) where
  -- A file entry that opens is saved under the folder's path joined with the entry's name, as
  -- `SaveFileFromReader` would; if that fails `Unzip` ends, and otherwise goes on with the rest.
  pub unzip_entries-save_file_from_reader :
      (dir name : Bytes) (reader : Reader Error) (es : List (ZipEntry Error)) (fs : Fs)
      → unzip_entries os dir
          (record { name = name; is_dir = false; open_entry = ok reader } ∷ es)
          fs
        ≡ proceed
            (save_file_from_reader os (join_path dir name) reader fs)
            (λ _ fs. unzip_entries os dir es fs)
  unfolding unzip_entries unzip_entry save_file_from_reader
  unzip_entries-save_file_from_reader dir name reader es fs = refl

  -- `Unzip` into a folder `dir/d` does not refuse an entry that is named `../name`, which opens: it saves it
  -- as `SaveFileFromReader` does under `dir/name`, and if that fails it ends, and otherwise goes on with the rest.
  pub unzip_entries-escape :
      (dir d name : Bytes) (reader : Reader Error) (es : List (ZipEntry Error)) (fs : Fs)
      → dir ≢ []
      → IsOrdinary d
      → Lacks b'/' d
      → unzip_entries os
          (dir ++ b'/' ∷ d)
          (record { name = text "../" ++ name; is_dir = false; open_entry = ok reader } ∷ es)
          fs
        ≡ proceed
            (save_file_from_reader os (join_path dir name) reader fs)
            (λ _ fs. unzip_entries os (dir ++ b'/' ∷ d) es fs)
  unzip_entries-escape dir d name reader es fs some_dir ordinary lacks =
      unzip_entries-save_file_from_reader (dir ++ b'/' ∷ d) (text "../" ++ name) reader es fs
      ∙ ap
          (λ p.
            proceed (save_file_from_reader os p reader fs)
              (λ _ fs. unzip_entries os (dir ++ b'/' ∷ d) es fs))
          (join_path-parent dir d name some_dir ordinary lacks)

  module _ (P : Fs → Type 0) (dir : Bytes) (some_dir : dir ≢ [])
      (mkdir_keeps : (p : Bytes) (fs : Fs) → P fs → P (os.mkdir_all p fs).0)
      (create_keeps : (p : Bytes) (fs : Fs) → IsBelow dir p → P fs → P (os.create p fs).0)
      (copy_keeps : (p : Bytes) (n : Handle) (r : Reader Error) (fs : Fs)
        → IsBelow dir p
        → (os.create p fs).1 ≡ ok n
        → P (os.create p fs).0
        → P (os.copy n r (os.create p fs).0).0) where
    unzip_entry-keeps :
        (des : Bytes) (is_dir : Bool) (opened : Result Error (Reader Error)) (fs : Fs)
        → IsBelow dir des
        → P fs
        → P (unzip_entry os des is_dir opened fs).0
    unfolding unzip_entry
    unzip_entry-keeps des true opened fs below p = mkdir_keeps des fs p
    unzip_entry-keeps des false (error e) fs below p =
        proceed-keeps P (os.mkdir_all (dir_of des) fs) (λ _ fs. (fs, error e))
          (mkdir_keeps (dir_of des) fs p) λ _ _. mkdir_keeps (dir_of des) fs p
    unzip_entry-keeps des false (ok r) fs below p =
        let made = mkdir_keeps (dir_of des) fs p in
        let fs1 = (os.mkdir_all (dir_of des) fs).0 in
        proceed-keeps P (os.mkdir_all (dir_of des) fs)
          (λ _ fs. proceed (os.create des fs) λ n fs. os.copy n r fs) made
          λ _ _.
            let created = create_keeps des fs1 below made in
            proceed-keeps P (os.create des fs1) (λ n fs. os.copy n r fs) created
              λ n h. copy_keeps des n r fs1 below h created

    unzip_entries-keeps :
        (es : List (ZipEntry Error)) (fs : Fs)
        → All (λ e. IsLocal e.name) es
        → P fs
        → P (unzip_entries os dir es fs).0
    unfolding unzip_entries
    unzip_entries-keeps [] fs locals p = p
    unzip_entries-keeps (e ∷ es) fs (local, locals) p =
        let below = join_path-IsBelow dir e.name some_dir local in
        let kept = unzip_entry-keeps (join_path dir e.name) e.is_dir e.open_entry fs below p in
        proceed-keeps P (unzip_entry os (join_path dir e.name) e.is_dir e.open_entry fs)
          (λ _ fs. unzip_entries os dir es fs) kept
          λ _ _.
            unzip_entries-keeps es
              (unzip_entry os (join_path dir e.name) e.is_dir e.open_entry fs).0 locals kept

    -- When no entry's name has a component `..`, `Unzip` creates and writes files below its folder
    -- only: what making folders keeps, and creating and writing files below the folder, holds after
    -- it, whether it fails or not.
    pub unzip-keeps :
        (zip_path : Bytes) (entries : List (ZipEntry Error)) (fs : Fs)
        → os.open_zip zip_path fs ≡ ok entries
        → All (λ e. IsLocal e.name) entries
        → P fs
        → P (unzip os zip_path dir fs).0
    unfolding unzip
    unzip-keeps zip_path entries fs opened locals p =
        rw (unzip, opened)
          (proceed-keeps P (os.mkdir_all dir fs) (λ _ fs. unzip_entries os dir entries fs)
            (mkdir_keeps dir fs p)
            λ _ _.
              unzip_entries-keeps entries (os.mkdir_all dir fs).0 locals (mkdir_keeps dir fs p))

-- The names of an archive's entries.
abbrev pub names : List (Bytes × Bytes) → List (Option Bytes)
names [] = []
names ((n, c) ∷ es) = some n ∷ names es

names-append : (xs ys : List (Bytes × Bytes)) → names (xs ++ ys) ≡ names xs ++ names ys
names-append [] ys = refl
names-append ((n, c) ∷ xs) ys = ap (λ l. some n ∷ l) (names-append xs ys)

abbrev name_of : Bool → Option Bytes → List (Option Bytes)
name_of true n = []
name_of false n = n ∷ []

-- The names relative to the folder of what was visited, without the folders.
abbrev pub file_names : {Error : Type 0} → Bytes → List (Visit Error) → List (Option Bytes)
file_names base [] = []
file_names base (v ∷ vs) = name_of v.is_dir (rel base v.path) ++ file_names base vs

module _ {Error Fs Handle : Type 0} (os : Os Error Fs Handle) where
  zip_created-names :
      (path name : Bytes) (e : Option Error) (fs : Fs)
      → (zip_created os path name e fs).1 ≡ none
      → names (zip_created os path name e fs).0 ≡ some name ∷ []
  zip_created-names path name (some e) fs h = ground (arith, h)
  zip_created-names path name none fs h = opened (os.open_file path fs)
    where
      opened : (r : Result Error Handle) → names (zip_opened os name r fs).0 ≡ some name ∷ []
      opened (error e) = refl
      opened (ok file) = refl

  zip_named-names :
      (v : Visit Error) (n : Option Bytes) (is_dir : Bool) (done : List (Bytes × Bytes)) (fs : Fs)
      → (zip_named os v n is_dir done fs).1 ≡ none
      → names (zip_named os v n is_dir done fs).0 ≡ name_of is_dir n
  zip_named-names v none is_dir done fs h = ground (arith, h)
  zip_named-names v (some name) true done fs h = refl
  zip_named-names v (some name) false done fs h =
      zip_created-names v.path name (os.create_header name done) fs h

  zip_headed-names :
      (base : Bytes) (v : Visit Error) (e : Option Error) (done : List (Bytes × Bytes)) (fs : Fs)
      → (zip_headed os base v e done fs).1 ≡ none
      → names (zip_headed os base v e done fs).0 ≡ name_of v.is_dir (rel base v.path)
  zip_headed-names base v (some e) done fs h = ground (arith, h)
  zip_headed-names base v none done fs h = zip_named-names v (rel base v.path) v.is_dir done fs h

  zip_checked-names :
      (base : Bytes) (v : Visit Error) (e : Option Error) (done : List (Bytes × Bytes)) (fs : Fs)
      → (zip_checked os base v e done fs).1 ≡ none
      → names (zip_checked os base v e done fs).0 ≡ name_of v.is_dir (rel base v.path)
  zip_checked-names base v (some e) done fs h = ground (arith, h)
  zip_checked-names base v none done fs h = zip_headed-names base v (os.header v) done fs h

  zip_visit-names :
      (base : Bytes) (v : Visit Error) (done : List (Bytes × Bytes)) (fs : Fs)
      → (zip_visit os base v done fs).1 ≡ none
      → names (zip_visit os base v done fs).0 ≡ name_of v.is_dir (rel base v.path)
  unfolding zip_visit
  zip_visit-names base v done fs h = zip_checked-names base v v.failure done fs h

  zip_visits-step :
      (base : Bytes) (v : Visit Error) (vs : List (Visit Error)) (done : List (Bytes × Bytes))
      (fs : Fs)
      → (zip_visits os base (v ∷ vs) done fs).1 ≡ none
      → ((zip_visit os base v done fs).1 ≡ none)
        × (zip_visits os base (v ∷ vs) done fs
            ≡ zip_visits os base vs (done ++ (zip_visit os base v done fs).0) fs)
  unfolding zip_visits
  zip_visits-step base v vs done fs h = elim (Option-cases (zip_visit os base v done fs).1) [
    | inl fine ↦ (fine, rw (zip_visits, fine) refl)
    | inr (x, failed) ↦ ground (arith, h, failed)
  ]

  -- When the walk of `Zip` ends without an error, the archive has got one entry for each file that was
  -- visited, in that order and under its path relative to the folder, and no entry for a folder.
  pub zip_visits-names :
      (base : Bytes) (vs : List (Visit Error)) (done : List (Bytes × Bytes)) (fs : Fs)
      → (zip_visits os base vs done fs).1 ≡ none
      → names (zip_visits os base vs done fs).0 ≡ names done ++ file_names base vs
  unfolding zip_visits
  zip_visits-names base [] done fs h = sym (append-nil (names done))
  zip_visits-names base (v ∷ vs) done fs h =
      let (fine, e) = zip_visits-step base v vs done fs h in
      let more = (zip_visit os base v done fs).0 in
      ap (λ x. names x.0) e
      ∙ zip_visits-names base vs (done ++ more) fs (sym (ap (λ x. x.1) e) ∙ h)
      ∙ ap (λ l. l ++ file_names base vs)
          (names-append done more ∙ ap (λ l. names done ++ l) (zip_visit-names base v done fs fine))
      ∙ append_assoc (names done) (name_of v.is_dir (rel base v.path)) (file_names base vs)

  -- A file that `Zip` takes from below a rooted folder, without an error, gets one entry; and `Unzip`
  -- of an entry with this name into the same folder saves it, as `SaveFileFromReader` does, under
  -- the path that it was taken from, before it goes on with the rest.
  pub unzip_entries-zip_visit :
      (d name : Bytes) (v : Visit Error) (done : List (Bytes × Bytes)) (fs fs' : Fs)
      (reader : Reader Error) (es : List (ZipEntry Error))
      → IsLocal name
      → v.path ≡ join_path (b'/' ∷ d) name
      → v.is_dir ≡ false
      → (zip_visit os (b'/' ∷ d) v done fs).1 ≡ none
      → (n : Bytes) × (names (zip_visit os (b'/' ∷ d) v done fs).0 ≡ some n ∷ [])
        × (unzip_entries os
              (b'/' ∷ d)
              (record { name = n; is_dir = false; open_entry = ok reader } ∷ es)
              fs'
            ≡ proceed
                (save_file_from_reader os v.path reader fs')
                (λ _ fs. unzip_entries os (b'/' ∷ d) es fs))
  unzip_entries-zip_visit d name v done fs fs' reader es local at plain fine =
      let (n, below, back) = join_path-rel d name local in
      let named : name_of v.is_dir (rel (b'/' ∷ d) v.path) ≡ some n ∷ [] =
        ap (λ b. name_of b (rel (b'/' ∷ d) v.path)) plain
        ∙ ap (λ p. rel (b'/' ∷ d) p ∷ []) at
        ∙ ap (λ o. o ∷ []) below in
      (
        n,
        zip_visit-names (b'/' ∷ d) v done fs fine ∙ named,
        unzip_entries-save_file_from_reader os (b'/' ∷ d) n reader es fs'
            ∙ ap
                (λ p.
                  proceed (save_file_from_reader os p reader fs')
                    (λ _ fs. unzip_entries os (b'/' ∷ d) es fs))
                (back ∙ sym at),
      )
