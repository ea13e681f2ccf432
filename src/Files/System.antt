-- ===== src/Files/System.antt =====
-- What internal/service/util/file.go relies on of the operating system: a name stands for a file, which
-- other names may stand for too, and a file has a content.
use go_template_aerospike.Prelude.{Bytes, Option, none, some, [], ◌≡◌, ◌≢◌, refl, arith}
use go_template_aerospike.Query.{Result, ok, error}
use go_template_aerospike.Paths.{dir_of}
use go_template_aerospike.Files.{Os, Reader, proceed}

pub record View (Fs Handle : Type 0) : Type 0 where
  pub lookup : Bytes → Fs → Option Handle
  pub content : Handle → Fs → Bytes

module _ {Fs Handle : Type 0} (view : View Fs Handle) where
  -- The name stands for the file, which holds the bytes.
  abbrev pub Holds : Bytes → Handle → Bytes → Fs → Type 0
  Holds p n c fs = (view.lookup p fs ≡ some n) × (view.content n fs ≡ c)

  abbrev pub content_of : Option Handle → Fs → Option Bytes
  content_of none fs = none
  content_of (some n) fs = some (view.content n fs)

  -- What a program that opens the name reads.
  abbrev pub read_file : Bytes → Fs → Option Bytes
  read_file p fs = content_of (view.lookup p fs) fs

-- Documented behaviour of `os.MkdirAll`, `os.Create`, `os.Open` and `io.Copy`: making folders touches no
-- file; creating a file empties the one that the name stands for, or makes a new one; copying writes
-- one file only; all of this also when the call fails.
pub record IsFileSystem {Error Fs Handle : Type 0} (os : Os Error Fs Handle) (view : View Fs Handle)
    : Type 0 where
  pub mkdir_keeps :
      (d q : Bytes) (n : Handle) (c : Bytes) (fs : Fs)
      → Holds view q n c fs
      → Holds view q n c (os.mkdir_all d fs).0
  pub mkdir_makes_no_file :
      (p : Bytes) (fs : Fs) → view.lookup p (os.mkdir_all (dir_of p) fs).0 ≡ view.lookup p fs
  pub create_empty :
      (p : Bytes) (n : Handle) (fs : Fs)
      → (os.create p fs).1 ≡ ok n
      → Holds view p n [] (os.create p fs).0
  pub create_same :
      (p : Bytes) (n m : Handle) (fs : Fs)
      → (os.create p fs).1 ≡ ok n
      → view.lookup p fs ≡ some m
      → n ≡ m
  pub create_fresh :
      (p q : Bytes) (n : Handle) (fs : Fs)
      → (os.create p fs).1 ≡ ok n
      → view.lookup p fs ≡ none
      → view.lookup q fs ≢ some n
  pub create_name :
      (p q : Bytes) (m : Handle) (fs : Fs)
      → view.lookup q fs ≡ some m
      → view.lookup q (os.create p fs).0 ≡ some m
  pub create_keeps :
      (p q : Bytes) (m : Handle) (c : Bytes) (fs : Fs)
      → view.lookup p fs ≢ some m
      → Holds view q m c fs
      → Holds view q m c (os.create p fs).0
  pub open_lookup :
      (p : Bytes) (n : Handle) (fs : Fs) → os.open_file p fs ≡ ok n → view.lookup p fs ≡ some n
  pub read_content :
      (n : Handle) (fs : Fs)
      → (os.reader_of n fs).failure ≡ none
      → (os.reader_of n fs).bytes ≡ view.content n fs
  pub copy_all :
      (p : Bytes) (n : Handle) (r : Reader Error) (fs : Fs)
      → (os.copy n r fs).1 ≡ ok tt
      → Holds view p n [] fs
      → (r.failure ≡ none) × Holds view p n r.bytes (os.copy n r fs).0
  pub copy_name :
      (n m : Handle) (q : Bytes) (r : Reader Error) (fs : Fs)
      → view.lookup q fs ≡ some m
      → view.lookup q (os.copy n r fs).0 ≡ some m
  pub copy_keeps :
      (n m : Handle) (q c : Bytes) (r : Reader Error) (fs : Fs)
      → n ≢ m
      → Holds view q m c fs
      → Holds view q m c (os.copy n r fs).0

Result-ok : {Error A : Type 0} (e : Error) (a : A) → (error e ≡ ok a) → ⊥
Result-ok e a h = ground (arith, h)

module _ {Error Fs A B : Type 0} where
  -- A call chain that succeeds: its first call succeeds.
  pub proceed-ok :
      (x : Fs × Result Error A) (k : A → Fs → Fs × Result Error B) (b : B)
      → (proceed x k).1 ≡ ok b
      → (a : A) × (x.1 ≡ ok a) × (proceed x k ≡ k a x.0)
  proceed-ok (fs, error e) k b h = absurd (Result-ok e b h)
  proceed-ok (fs, ok a) k b h = (a, refl, refl)

  -- What both calls of a chain keep, it keeps.
  pub proceed-keeps :
      (P : Fs → Type 0) (x : Fs × Result Error A) (k : A → Fs → Fs × Result Error B)
      → P x.0
      → ((a : A) → x.1 ≡ ok a → P (k a x.0).0)
      → P (proceed x k).0
  proceed-keeps P (fs, error e) k p h = p
  proceed-keeps P (fs, ok a) k p h = h a refl
