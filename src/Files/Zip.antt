-- ===== src/Files/Zip.antt =====
-- `Unzip`, `Zip` and `ZipFiles` of internal/service/util/file.go.
use go_template_aerospike.Prelude.{
  Bytes, Bool, true, false, Option, none, some, List, [], ◌∷◌, ◌++◌,
}
use go_template_aerospike.Query.{Result, ok, error}
use go_template_aerospike.Paths.{join_path, dir_of, rel}
use go_template_aerospike.Files.{Reader, ZipEntry, Visit, Os, proceed}

-- What `io.Copy` has read goes into the entry that `CreateHeader` opened.
abbrev pub read_entry :
    {Error : Type 0} → Bytes → Reader Error → List (Bytes × Bytes) × Option Error
read_entry name reader = ((name, reader.bytes) ∷ [], reader.failure)

abbrev pub result_of : {Error : Type 0} → Option Error → Result Error (Unit {0})
result_of none = ok tt
result_of (some e) = error e

module _ {Error Fs Handle : Type 0} where
  unfoldable pub unzip_entry :
      Os Error Fs Handle
      → Bytes
      → Bool
      → Result Error (Reader Error)
      → Fs
      → Fs × Result Error (Unit {0})
  unzip_entry os des true opened fs = os.mkdir_all des fs
  unzip_entry os des false opened fs = proceed (os.mkdir_all (dir_of des) fs) λ _ fs.
      proceed (fs, opened)
        λ zipped_file fs. proceed (os.create des fs) λ new_file fs. os.copy new_file zipped_file fs

  unfoldable pub unzip_entries :
      Os Error Fs Handle → Bytes → List (ZipEntry Error) → Fs → Fs × Result Error (Unit {0})
  unzip_entries os dir [] fs = (fs, ok tt)
  unzip_entries os dir (e ∷ es) fs =
      proceed (unzip_entry os (join_path dir e.name) e.is_dir e.open_entry fs)
        λ _ fs. unzip_entries os dir es fs

  unfoldable pub unzip : Os Error Fs Handle → Bytes → Bytes → Fs → Fs × Result Error (Unit {0})
  unzip os zip_path dir fs =
      proceed (fs, os.open_zip zip_path fs)
        λ entries fs. proceed (os.mkdir_all dir fs) λ _ fs. unzip_entries os dir entries fs

  abbrev pub zip_opened :
      Os Error Fs Handle → Bytes → Result Error Handle → Fs → List (Bytes × Bytes) × Option Error
  zip_opened os name (error e) fs = ((name, []) ∷ [], some e)
  zip_opened os name (ok file) fs = read_entry name (os.reader_of file fs)

  abbrev pub zip_created :
      Os Error Fs Handle → Bytes → Bytes → Option Error → Fs → List (Bytes × Bytes) × Option Error
  zip_created os path name (some e) fs = ([], some e)
  zip_created os path name none fs = zip_opened os name (os.open_file path fs) fs

  -- The name with its slash, for a folder, is dropped with the header.
  abbrev pub zip_named :
      Os Error Fs Handle
      → Visit Error
      → Option Bytes
      → Bool
      → List (Bytes × Bytes)
      → Fs
      → List (Bytes × Bytes) × Option Error
  zip_named os v none is_dir done fs = ([], some os.rel_error)
  zip_named os v (some name) true done fs = ([], none)
  zip_named os v (some name) false done fs =
      zip_created os v.path name (os.create_header name done) fs

  abbrev pub zip_headed :
      Os Error Fs Handle
      → Bytes
      → Visit Error
      → Option Error
      → List (Bytes × Bytes)
      → Fs
      → List (Bytes × Bytes) × Option Error
  zip_headed os base v (some e) done fs = ([], some e)
  zip_headed os base v none done fs = zip_named os v (rel base v.path) v.is_dir done fs

  abbrev pub zip_checked :
      Os Error Fs Handle
      → Bytes
      → Visit Error
      → Option Error
      → List (Bytes × Bytes)
      → Fs
      → List (Bytes × Bytes) × Option Error
  zip_checked os base v (some e) done fs = ([], some e)
  zip_checked os base v none done fs = zip_headed os base v (os.header v) done fs

  -- The callback: the entries that it adds to those of the writer, and its error.
  unfoldable pub zip_visit :
      Os Error Fs Handle
      → Bytes
      → Visit Error
      → List (Bytes × Bytes)
      → Fs
      → List (Bytes × Bytes) × Option Error
  zip_visit os base v done fs = zip_checked os base v v.failure done fs

  -- `filepath.Walk` stops at the first error of its callback.
  unfoldable pub zip_visits :
      Os Error Fs Handle
      → Bytes
      → List (Visit Error)
      → List (Bytes × Bytes)
      → Fs
      → List (Bytes × Bytes) × Option Error
  unfolding zip_visit
  zip_visits os base [] done fs = (done, none)
  zip_visits os base (v ∷ vs) done fs =
      let (more, e) = zip_visit os base v done fs in
      elim e [ some x ↦ (done ++ more, some x) | none ↦ zip_visits os base vs (done ++ more) fs ]

  -- The deferred `zipWriter.Close` writes the archive, and its error is dropped.
  abbrev pub close_zip :
      Os Error Fs Handle
      → Handle
      → List (Bytes × Bytes) × Option Error
      → Fs
      → Fs × Result Error (Unit {0})
  close_zip os zip_file (entries, e) fs = ((os.finish zip_file entries fs).0, result_of e)

  unfoldable pub zip : Os Error Fs Handle → Bytes → Bytes → Fs → Fs × Result Error (Unit {0})
  unfolding zip_visits
  zip os dir path fs = proceed (os.mkdir_all (dir_of path) fs) λ _ fs.
      proceed (os.create path fs)
        λ zip_file fs. close_zip os zip_file (zip_visits os dir (os.walk dir fs) [] fs) fs

  unfoldable pub zip_each :
      Os Error Fs Handle
      → List Bytes
      → List (Bytes × Bytes)
      → Fs
      → List (Bytes × Bytes) × Option Error
  unfolding zip_visits
  zip_each os [] done fs = (done, none)
  zip_each os (p ∷ ps) done fs =
      let (entries, e) = zip_visits os (dir_of p) (os.walk p fs) done fs in
      elim e [ some x ↦ (entries, some x) | none ↦ zip_each os ps entries fs ]

  unfoldable pub zip_files :
      Os Error Fs Handle → List Bytes → Bytes → Fs → Fs × Result Error (Unit {0})
  unfolding zip_each
  zip_files os paths path fs = proceed (os.mkdir_all (dir_of path) fs) λ _ fs.
      proceed (os.create path fs) λ zip_file fs. close_zip os zip_file (zip_each os paths [] fs) fs
