-- ===== src/Files/Saving.antt =====
-- `SaveFileFromReader` and `CopyFile`: what is read back, and which files are left alone.
use go_template_aerospike.Prelude.{
  Bytes, none, some, [], Option-cases, Bool-cases, inl, inr, ◌≡◌, ◌≢◌, refl, sym, ap, ◌∙◌, arith,
  eq_bytes, eq_bytes_iff,
}
use go_template_aerospike.Query.{ok}
use go_template_aerospike.Paths.{dir_of}
use go_template_aerospike.Files.{Os, Reader, save_file_from_reader, copy_file, proceed}
use go_template_aerospike.Files.System.{
  View, Holds, read_file, IsFileSystem, proceed-ok, proceed-keeps,
}

module _ {Error Fs Handle : Type 0} (os : Os Error Fs Handle) (view : View Fs Handle)
    (laws : IsFileSystem os view) where
  Holds-read :
      (p : Bytes) (n : Handle) (c : Bytes) (fs : Fs)
      → Holds view p n c fs
      → read_file view p fs ≡ some c
  Holds-read p n c fs (l, h) = rw l (ap some h)

  read-Holds :
      (p : Bytes) (c : Bytes) (fs : Fs)
      → read_file view p fs ≡ some c
      → (n : Handle) × Holds view p n c fs
  read-Holds p c fs h = elim (Option-cases (view.lookup p fs)) [
    | inl none_there ↦ ground (arith, h, none_there)
    | inr (n, there) ↦ (n, (there, ground (arith, h, there)))
  ]

  -- The file that is created is no other name's, unless it is the one that the name stood for.
  created-ne :
      (path q : Bytes) (n m : Handle) (fs : Fs)
      → (os.create path fs).1 ≡ ok n
      → view.lookup q fs ≡ some m
      → view.lookup path fs ≢ some m
      → n ≢ m
  created-ne path q n m fs created there other same = elim (Option-cases (view.lookup path fs)) [
    | inl free ↦ laws.create_fresh path q n fs created free (there ∙ ap some (sym same))
    | inr (k, taken) ↦
        other (taken ∙ ap some (sym (laws.create_same path n k fs created taken) ∙ same))
  ]

  create_and_copy-keeps :
      (path q : Bytes) (m : Handle) (c : Bytes) (source : Fs → Reader Error) (fs : Fs)
      → view.lookup path fs ≢ some m
      → Holds view q m c fs
      → Holds view q m c (proceed (os.create path fs) (λ n fs. os.copy n (source fs) fs)).0
  create_and_copy-keeps path q m c source fs other h =
      let kept = laws.create_keeps path q m c fs other h in
      proceed-keeps (Holds view q m c) (os.create path fs) (λ n fs. os.copy n (source fs) fs) kept
        λ n created.
          laws.copy_keeps n m q c (source (os.create path fs).0) (os.create path fs).0
            (created-ne path q n m fs created h.0 other) kept

  -- When `SaveFileFromReader` reports no error, the reader ended without one, and what is then read
  -- under the file's name is all that the reader yielded.
  pub read_file-save_file_from_reader :
      (path : Bytes) (reader : Reader Error) (fs : Fs)
      → (save_file_from_reader os path reader fs).1 ≡ ok tt
      → (reader.failure ≡ none)
        × (read_file view path (save_file_from_reader os path reader fs).0 ≡ some reader.bytes)
  unfolding save_file_from_reader
  read_file-save_file_from_reader path reader fs h =
      let (a, made, e) =
        proceed-ok (os.mkdir_all (dir_of path) fs)
          (λ _ fs. proceed (os.create path fs) λ n fs. os.copy n reader fs) tt h in
      let fs1 = (os.mkdir_all (dir_of path) fs).0 in
      let (n, created, e2) =
        proceed-ok (os.create path fs1) (λ n fs. os.copy n reader fs) tt
          (sym (ap (λ x. x.1) e) ∙ h) in
      let (whole, stored) =
        laws.copy_all path n reader (os.create path fs1).0 (sym (ap (λ x. x.1) (e ∙ e2)) ∙ h)
          (laws.create_empty path n fs1 created) in
      (
        whole,
        ap (λ x. read_file view path x.0) (e ∙ e2)
            ∙ Holds-read path n reader.bytes (os.copy n reader (os.create path fs1).0).0 stored,
      )

  -- `SaveFileFromReader` leaves every file alone that its name does not stand for, whether it fails or
  -- not: another name that could be read still reads the same.
  pub save_file_from_reader-keeps :
      (path q : Bytes) (reader : Reader Error) (c : Bytes) (fs : Fs)
      → view.lookup path fs ≢ view.lookup q fs
      → read_file view q fs ≡ some c
      → read_file view q (save_file_from_reader os path reader fs).0 ≡ some c
  unfolding save_file_from_reader
  save_file_from_reader-keeps path q reader c fs other h =
      let (m, held) = read-Holds q c fs h in
      let fs1 = (os.mkdir_all (dir_of path) fs).0 in
      let kept = laws.mkdir_keeps (dir_of path) q m c fs held in
      let apart : view.lookup path fs1 ≢ some m =
        λ e. other (sym (laws.mkdir_makes_no_file path fs) ∙ e ∙ sym held.0) in
      Holds-read q m c (save_file_from_reader os path reader fs).0 (
        proceed-keeps (Holds view q m c) (os.mkdir_all (dir_of path) fs)
          (λ _ fs. proceed (os.create path fs) λ n fs. os.copy n reader fs) kept
          λ _ _. create_and_copy-keeps path q m c (λ _. reader) fs1 apart kept)

  -- What a copy that succeeds has done: it opened the source before it created the target.
  copy_file_lem :
      (src des : Bytes) (fs : Fs)
      → des ≢ src
      → (copy_file os src des fs).1 ≡ ok tt
      → let fs1 = (os.mkdir_all (dir_of des) fs).0 in
        let fs2 = (os.create des fs1).0 in
        (m : Handle) × (n : Handle) × (os.open_file src fs ≡ ok m)
        × ((os.create des fs1).1 ≡ ok n)
        × (copy_file os src des fs ≡ os.copy n (os.reader_of m fs2) fs2)
  unfolding copy_file
  copy_file_lem src des fs differ h = elim (Bool-cases (eq_bytes des src)) [
    | inl same ↦ absurd (differ ((eq_bytes_iff des src).0 same))
    | inr apart ↦
        let fs1 = (os.mkdir_all (dir_of des) fs).0 in
        let e0 : copy_file os src des fs
            ≡ proceed (fs, os.open_file src fs)
                (λ m fs.
                  proceed (os.mkdir_all (dir_of des) fs)
                    λ _ fs. proceed (os.create des fs) λ n fs. os.copy n (os.reader_of m fs) fs) =
          rw (copy_file, apart) refl in
        let (m, opened, e1) =
          proceed-ok (fs, os.open_file src fs)
            (λ m fs.
              proceed (os.mkdir_all (dir_of des) fs)
                λ _ fs. proceed (os.create des fs) λ n fs. os.copy n (os.reader_of m fs) fs)
            tt (sym (ap (λ x. x.1) e0) ∙ h) in
        let (a, made, e2) =
          proceed-ok (os.mkdir_all (dir_of des) fs)
            (λ _ fs. proceed (os.create des fs) λ n fs. os.copy n (os.reader_of m fs) fs) tt
            (sym (ap (λ x. x.1) (e0 ∙ e1)) ∙ h) in
        let (n, created, e3) =
          proceed-ok (os.create des fs1) (λ n fs. os.copy n (os.reader_of m fs) fs) tt
            (sym (ap (λ x. x.1) (e0 ∙ e1 ∙ e2)) ∙ h) in
        (m, n, opened, created, e0 ∙ e1 ∙ e2 ∙ e3)
  ]

  -- What the target then holds: what the source's file held after the target was created.
  copied :
      (des : Bytes) (m n : Handle) (fs1 : Fs) (c : Bytes)
      → let fs2 = (os.create des fs1).0 in
        (os.create des fs1).1 ≡ ok n
        → (os.copy n (os.reader_of m fs2) fs2).1 ≡ ok tt
        → view.content m fs2 ≡ c
        → Holds view des n c (os.copy n (os.reader_of m fs2) fs2).0
  copied des m n fs1 c created done held =
      let fs2 = (os.create des fs1).0 in
      let (whole, (there, stored)) =
        laws.copy_all des n (os.reader_of m fs2) fs2 done (laws.create_empty des n fs1 created) in
      (there, stored ∙ laws.read_content m fs2 whole ∙ held)

  -- When `CopyFile` reports no error and the two names stand for different files, the target then
  -- reads what the source read, and the source reads the same as before.
  pub read_file-copy_file :
      (src des c : Bytes) (fs : Fs)
      → des ≢ src
      → view.lookup des fs ≢ view.lookup src fs
      → read_file view src fs ≡ some c
      → (copy_file os src des fs).1 ≡ ok tt
      → (read_file view des (copy_file os src des fs).0 ≡ some c)
        × (read_file view src (copy_file os src des fs).0 ≡ some c)
  read_file-copy_file src des c fs differ other h done =
      let (m, n, opened, created, e) = copy_file_lem src des fs differ done in
      let fs1 = (os.mkdir_all (dir_of des) fs).0 in
      let fs2 = (os.create des fs1).0 in
      let out = (os.copy n (os.reader_of m fs2) fs2).0 in
      let there = laws.open_lookup src m fs opened in
      let held0 : Holds view src m c fs = (there, ground (arith, h, there)) in
      let apart : view.lookup des fs1 ≢ some m =
        λ x. other (sym (laws.mkdir_makes_no_file des fs) ∙ x ∙ sym there) in
      let held1 = laws.mkdir_keeps (dir_of des) src m c fs held0 in
      let held2 = laws.create_keeps des src m c fs1 apart held1 in
      let target = copied des m n fs1 c created (sym (ap (λ x. x.1) e) ∙ done) held2.1 in
      let source =
        laws.copy_keeps n m src c (os.reader_of m fs2) fs2
          (created-ne des src n m fs1 created held1.0 apart) held2 in
      (
        ap (λ x. read_file view des x.0) e ∙ Holds-read des n c out target,
        ap (λ x. read_file view src x.0) e ∙ Holds-read src m c out source,
      )

  -- When `CopyFile` reports no error and the two names, written differently, stand for the same file,
  -- that file is empty afterwards: its content is lost.
  pub read_file-copy_file-same :
      (src des : Bytes) (fs : Fs)
      → des ≢ src
      → view.lookup des fs ≡ view.lookup src fs
      → (copy_file os src des fs).1 ≡ ok tt
      → (read_file view src (copy_file os src des fs).0 ≡ some [])
        × (read_file view des (copy_file os src des fs).0 ≡ some [])
  read_file-copy_file-same src des fs differ same done =
      let (m, n, opened, created, e) = copy_file_lem src des fs differ done in
      let fs1 = (os.mkdir_all (dir_of des) fs).0 in
      let fs2 = (os.create des fs1).0 in
      let out = (os.copy n (os.reader_of m fs2) fs2).0 in
      let there = laws.open_lookup src m fs opened in
      let one =
        laws.create_same des n m fs1 created (laws.mkdir_makes_no_file des fs ∙ same ∙ there) in
      let empty =
        ap (λ k. view.content k fs2) (sym one) ∙ (laws.create_empty des n fs1 created).1 in
      let target = copied des m n fs1 [] created (sym (ap (λ x. x.1) e) ∙ done) empty in
      let kept = (laws.mkdir_keeps (dir_of des) src m (view.content m fs) fs (there, refl)).0 in
      let name =
        laws.copy_name n m src (os.reader_of m fs2) fs2 (laws.create_name des src m fs1 kept) in
      (
        ap (λ x. read_file view src x.0) e
            ∙ Holds-read src m [] out (name, ap (λ k. view.content k out) (sym one) ∙ target.1),
        ap (λ x. read_file view des x.0) e ∙ Holds-read des n [] out target,
      )
