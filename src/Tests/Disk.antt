-- ===== src/Tests/Disk.antt =====
-- A disk in memory that behaves as documented: a file is found under the cleaned form of its name.
use go_template_aerospike.Prelude.{
  Bytes, text, eq_bytes, eq_bytes_iff, eq_bytes_refl, Bool, true, false, Option, none, some, [],
  ◌++◌, ◌≡◌, ◌≢◌, refl, sym, ap, ◌∙◌, arith, Dict, get_key, set_key, get_key-set_key, if◌then◌else◌,
}
use mathlib.Core.Path.{subst}
use go_template_aerospike.Query.{Result, ok, error, or_else}
use go_template_aerospike.Paths.{clean}
use go_template_aerospike.Files.{Os}
use go_template_aerospike.Files.System.{View, Holds, IsFileSystem}

abbrev named : Bytes → Option Bytes → Option Bytes
named p none = none
named p (some c) = some p

abbrev pub view : View (Dict Bytes) Bytes
view = record {
  lookup = λ p fs. named (clean p) (get_key (clean p) fs);
  content = λ n fs. or_else (get_key n fs) [];
}

abbrev copy_result : Option Bytes → Result Bytes (Unit {0})
copy_result none = ok tt
copy_result (some e) = error e

abbrev open_result : Option Bytes → Result Bytes Bytes
open_result none = error (text "no such file")
open_result (some n) = ok n

-- A copy goes on where the file ends.
abbrev pub disk : Os Bytes (Dict Bytes) Bytes
disk = record {
  mkdir_all = λ p fs. (fs, ok tt);
  write_file = λ p c fs. (set_key (clean p) c fs, ok tt);
  create = λ p fs. (set_key (clean p) [] fs, ok (clean p));
  open_file = λ p fs. open_result (view.lookup p fs);
  reader_of = λ n fs. record { bytes = view.content n fs; failure = none };
  copy = λ n r fs. (set_key n (view.content n fs ++ r.bytes) fs, copy_result r.failure);
  remove_all = λ p fs. (fs, ok tt);
  stat = λ p fs. error (text "no such file");
  read_dir = λ p fs. ok [];
  open_zip = λ p fs. error (text "no such file");
  walk = λ p fs. [];
  header = λ v. none;
  create_header = λ name done. none;
  finish = λ n entries fs. (fs, ok tt);
  compile = λ pattern. ok (eq_bytes pattern);
  rel_error = text "not relative";
}

named-some : (p n : Bytes) (o : Option Bytes) → named p o ≡ some n → p ≡ n
named-some p n none h = ground (arith, h)
named-some p n (some c) h = ground (arith, h)

named-kept :
    (p n : Bytes) (o : Option Bytes) (b : Bool) (c : Bytes)
    → named p o ≡ some n
    → named p (if b then some c else o) ≡ some n
named-kept p n o true c h = ap some (named-some p n o h)
named-kept p n o false c h = h

set_key-lookup :
    (n c q m : Bytes) (fs : Dict Bytes)
    → view.lookup q fs ≡ some m
    → view.lookup q (set_key n c fs) ≡ some m
set_key-lookup n c q m fs h =
    ap (named (clean q)) (get_key-set_key n (clean q) c fs)
    ∙ named-kept (clean q) m (get_key (clean q) fs) (eq_bytes n (clean q)) c h

set_key-content : (n c : Bytes) (fs : Dict Bytes) → view.content n (set_key n c fs) ≡ c
set_key-content n c fs = ground (arith, get_key-set_key n n c fs, eq_bytes_refl n)

set_key-other :
    (n c m : Bytes) (fs : Dict Bytes) → n ≢ m → view.content m (set_key n c fs) ≡ view.content m fs
set_key-other n c m fs other = ground (arith, get_key-set_key n m c fs, eq_bytes_iff n m, other)

set_key-Holds :
    (n c q m d : Bytes) (fs : Dict Bytes)
    → n ≢ m
    → Holds view q m d fs
    → Holds view q m d (set_key n c fs)
set_key-Holds n c q m d fs other (there, held) =
    (set_key-lookup n c q m fs there, set_key-other n c m fs other ∙ held)

created : (p n : Bytes) → ◌≡◌ {A = Result Bytes Bytes} (ok (clean p)) (ok n) → clean p ≡ n
created p n h = ground (arith, h)

made : (p : Bytes) (fs : Dict Bytes) → Holds view p (clean p) [] (set_key (clean p) [] fs)
made p fs =
    let found : get_key (clean p) (set_key (clean p) [] fs) ≡ some [] =
      ground (arith, get_key-set_key (clean p) (clean p) [] fs, eq_bytes_refl (clean p)) in
    (ap (named (clean p)) found, set_key-content (clean p) [] fs)

opened : (o : Option Bytes) (n : Bytes) → open_result o ≡ ok n → o ≡ some n
opened none n h = ground (arith, h)
opened (some m) n h = ground (arith, h)

whole : (e : Option Bytes) → copy_result e ≡ ok tt → e ≡ none
whole none h = refl
whole (some e) h = ground (arith, h)

fresh :
    (p q n : Bytes) (fs : Dict Bytes)
    → clean p ≡ n
    → view.lookup p fs ≡ none
    → view.lookup q fs ≢ some n
fresh p q n fs e free k =
    let same : clean q ≡ clean p = named-some (clean q) n (get_key (clean q) fs) k ∙ sym e in
    let gone : view.lookup q fs ≡ none = ap (λ x. named x (get_key x fs)) same ∙ free in
    ground (arith, k, gone)

pub disk-IsFileSystem : IsFileSystem disk view
disk-IsFileSystem = record {
  mkdir_keeps = λ d q n c fs h. h;
  mkdir_makes_no_file = λ p fs. refl;
  create_empty = λ p n fs h.
      subst (λ k. Holds view p k [] (set_key (clean p) [] fs)) (created p n h) (made p fs);
  create_same =
      λ p n m fs h g. sym (created p n h) ∙ named-some (clean p) m (get_key (clean p) fs) g;
  create_fresh = λ p q n fs h g. fresh p q n fs (created p n h) g;
  create_name = λ p q m fs h. set_key-lookup (clean p) [] q m fs h;
  create_keeps = λ p q m c fs other h.
      set_key-Holds (clean p) [] q m c fs
        (λ e. other (
          ap (λ x. named x (get_key x fs))
            (e ∙ sym (named-some (clean q) m (get_key (clean q) fs) h.0))
          ∙ h.0))
        h;
  open_lookup = λ p n fs h. opened (view.lookup p fs) n h;
  read_content = λ n fs h. refl;
  copy_all = λ p n r fs done h. (
    whole r.failure done,
    (
      set_key-lookup n (view.content n fs ++ r.bytes) p n fs h.0,
      set_key-content n (view.content n fs ++ r.bytes) fs ∙ ap (λ l. l ++ r.bytes) h.1,
    ),
  );
  copy_name = λ n m q r fs h. set_key-lookup n (view.content n fs ++ r.bytes) q m fs h;
  copy_keeps =
      λ n m q c r fs other h. set_key-Holds n (view.content n fs ++ r.bytes) q m c fs other h;
}
