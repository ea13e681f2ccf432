-- ===== src/Files.antt =====
-- The file helpers of internal/service/util/file.go. The operating system, `archive/zip`, `regexp` and
-- `filepath.Walk` are parameters; closing a file is left out, since its error is dropped.
pub mod System
pub mod Zip
pub mod Search
pub mod Saving
pub mod Archives
pub mod Searching
use go_template_aerospike.Prelude.{
  Bytes, eq_bytes, Bool, true, false, not, Option, List, [], ◌∷◌, if◌then◌else◌, length, take, ◌-◌,
}
use go_template_aerospike.Query.{Result, ok, error}
use go_template_aerospike.Paths.{dir_of, ext_length}

-- What an `io.Reader` yields, and the error that ends it, if it is not the end of the file.
pub record Reader (Error : Type 0) : Type 0 where
  pub bytes : Bytes
  pub failure : Option Error

-- `os.DirEntry`
pub record DirEntry : Type 0 where
  pub name : Bytes
  pub is_dir : Bool

-- An entry of a zip file that is read.
pub record ZipEntry (Error : Type 0) : Type 0 where
  pub name : Bytes
  pub is_dir : Bool
  pub open_entry : Result Error (Reader Error)

-- What `filepath.Walk` hands to its callback.
pub record Visit (Error : Type 0) : Type 0 where
  pub path : Bytes
  pub is_dir : Bool
  pub failure : Option Error

pub record Os (Error Fs Handle : Type 0) : Type 0 where
  pub mkdir_all : Bytes → Fs → Fs × Result Error (Unit {0})
  pub write_file : Bytes → Bytes → Fs → Fs × Result Error (Unit {0})
  pub create : Bytes → Fs → Fs × Result Error Handle
  pub open_file : Bytes → Fs → Result Error Handle
  pub reader_of : Handle → Fs → Reader Error
  pub copy : Handle → Reader Error → Fs → Fs × Result Error (Unit {0})
  pub remove_all : Bytes → Fs → Fs × Result Error (Unit {0})
  -- whether the file is a folder
  pub stat : Bytes → Fs → Result Error Bool
  pub read_dir : Bytes → Fs → Result Error (List DirEntry)
  pub open_zip : Bytes → Fs → Result Error (List (ZipEntry Error))
  pub walk : Bytes → Fs → List (Visit Error)
  -- the error of `zip.FileInfoHeader`
  pub header : Visit Error → Option Error
  pub create_header : Bytes → List (Bytes × Bytes) → Option Error
  -- `zipWriter.Close`
  pub finish : Handle → List (Bytes × Bytes) → Fs → Fs × Result Error (Unit {0})
  -- `regexp.Compile`, and `MatchString` of what it returns
  pub compile : Bytes → Result Error (Bytes → Bool)
  -- the error of `filepath.Rel`
  pub rel_error : Error

-- An early return on an error.
abbrev pub proceed :
    {Error Fs A B : Type 0}
    → Fs × Result Error A
    → (A → Fs → Fs × Result Error B)
    → Fs × Result Error B
proceed (fs, error e) k = (fs, error e)
proceed (fs, ok a) k = k a fs

module _ {Error Fs Handle : Type 0} where
  unfoldable pub save_file_from_buffer :
      Os Error Fs Handle → Bytes → Bytes → Fs → Fs × Result Error (Unit {0})
  save_file_from_buffer os path buffer fs =
      proceed (os.mkdir_all (dir_of path) fs) λ _ fs. os.write_file path buffer fs

  unfoldable pub save_file_from_reader :
      Os Error Fs Handle → Bytes → Reader Error → Fs → Fs × Result Error (Unit {0})
  save_file_from_reader os path reader fs =
      proceed (os.mkdir_all (dir_of path) fs)
        λ _ fs. proceed (os.create path fs) λ new_file fs. os.copy new_file reader fs

  unfoldable pub copy_file : Os Error Fs Handle → Bytes → Bytes → Fs → Fs × Result Error (Unit {0})
  copy_file os src des fs =
      if eq_bytes des src
      then (fs, ok tt)
      else proceed (fs, os.open_file src fs)
          λ src_file fs. proceed (os.mkdir_all (dir_of des) fs) λ _ fs.
            proceed (os.create des fs) λ des_file fs. os.copy des_file (os.reader_of src_file fs) fs

  unfoldable pub remove_all : Os Error Fs Handle → List Bytes → Fs → Fs × Result Error (Unit {0})
  remove_all os [] fs = (fs, ok tt)
  remove_all os (p ∷ ps) fs = proceed (os.remove_all p fs) λ _ fs. remove_all os ps fs

  unfoldable pub make_all : Os Error Fs Handle → List Bytes → Fs → Fs × Result Error (Unit {0})
  make_all os [] fs = (fs, ok tt)
  make_all os (p ∷ ps) fs = proceed (os.mkdir_all p fs) λ _ fs. make_all os ps fs

  unfoldable pub create_folders :
      Os Error Fs Handle → List Bytes → Bool → Fs → Fs × Result Error (Unit {0})
  create_folders os dirs true fs = proceed (remove_all os dirs fs) λ _ fs. make_all os dirs fs
  create_folders os dirs false fs = make_all os dirs fs

  unfoldable pub is_valid_file : Os Error Fs Handle → Bytes → Fs → Bool
  is_valid_file os path fs = elim (os.stat path fs) [ error e ↦ false | ok is_dir ↦ not is_dir ]

  unfoldable pub is_valid_dir : Os Error Fs Handle → Bytes → Fs → Bool
  is_valid_dir os path fs = elim (os.stat path fs) [ error e ↦ false | ok is_dir ↦ is_dir ]

unfoldable pub get_file_name_wo_ext : Bytes → Bytes
unfolding ext_length
get_file_name_wo_ext name = take (length name - ext_length name) name
