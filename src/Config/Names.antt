-- ===== src/Config/Names.antt =====
-- The short names: of a source file in a log line, and of the module.
use go_template_aerospike.Prelude.{
  ℕ, zero, suc, ℤ, Bytes, false, List, [], ◌∷◌, ◌++◌, ◌==◌, ◌-◌, ◌+◌, ◌<◌, ◌≡◌, refl, sym, ap, ◌∙◌,
  arith, length, length-append, drop, split, split-append, split-Lacks, split-ne-nil, Lacks,
  show_int,
}
use go_template_aerospike.Paths.{last_part, base_of}
use go_template_aerospike.Config.{byte_at, short_name, marshal_caller, get_module_name}

byte_at-append : (xs ys : Bytes) (i : ℕ) → byte_at (length xs + i) (xs ++ ys) ≡ byte_at i ys
unfolding byte_at
byte_at-append [] ys i = ap (λ k. byte_at k ys) (omega arith)
byte_at-append (x ∷ xs) ys i =
    let e : suc (length xs) + i ≡ suc (length xs + i) = omega arith in
    ap (λ k. byte_at k (x ∷ (xs ++ ys))) e ∙ byte_at-append xs ys i

byte_at-Lacks : (s : Bytes) (i : ℕ) → Lacks b'/' s → i < length s → (byte_at i s == b'/') ≡ false
unfolding byte_at
byte_at-Lacks [] i h small = absurd (omega (arith, small))
byte_at-Lacks (c ∷ s) zero (h, hs) small = ground (arith, h)
byte_at-Lacks (c ∷ s) (suc i) (h, hs) small = byte_at-Lacks s i hs (omega (arith, small))

drop-append : (xs ys : Bytes) (y : ℕ) → drop (suc (length xs)) (xs ++ y ∷ ys) ≡ ys
drop-append [] ys y = refl
drop-append (x ∷ xs) ys y = drop-append xs ys y

-- The number that is `i` above `n`.
abbrev above : ℕ → ℕ → ℕ
above zero n = n
above (suc i) n = suc (above i n)

above-add : (i n : ℕ) → above i n ≡ n + i
above-add zero n = omega arith
above-add (suc i) n = omega (arith, above-add i n)

-- One turn of the loop.
short_name-hit :
    (i : ℕ) (file : Bytes)
    → byte_at (suc i) file ≡ b'/'
    → short_name (suc i) file ≡ drop (suc (suc i)) file
unfolding short_name
short_name-hit i file h = ground (arith, h)

short_name-miss :
    (i : ℕ) (file : Bytes)
    → (byte_at (suc i) file == b'/') ≡ false
    → short_name (suc i) file ≡ short_name i file
unfolding short_name
short_name-miss i file h = ground (arith, h)

-- Going down from the last byte, the loop meets the slash first.
short_name_lem :
    (c : ℕ) (dir base : Bytes) (i : ℕ)
    → Lacks b'/' base
    → i < suc (length base)
    → short_name (above i (suc (length dir))) ((c ∷ dir) ++ b'/' ∷ base) ≡ base
unfolding byte_at
short_name_lem c dir base zero lacks small =
    let at_slash =
      ap (λ k. byte_at k ((c ∷ dir) ++ b'/' ∷ base)) (sym (above-add 0 (suc (length dir)))) in
    short_name-hit (length dir) ((c ∷ dir) ++ b'/' ∷ base)
      (sym at_slash ∙ byte_at-append (c ∷ dir) (b'/' ∷ base) 0)
    ∙ drop-append dir base b'/'
short_name_lem c dir base (suc i) lacks small =
    short_name-miss (above i (suc (length dir))) ((c ∷ dir) ++ b'/' ∷ base) (
      ap (λ k. byte_at k ((c ∷ dir) ++ b'/' ∷ base) == b'/') (above-add (suc i) (suc (length dir)))
      ∙ ap (λ b. b == b'/') (byte_at-append (c ∷ dir) (b'/' ∷ base) (suc i))
      ∙ byte_at-Lacks base i lacks (omega (arith, small)))
    ∙ short_name_lem c dir base i lacks (omega (arith, small))

-- A log line names the source file by what follows the last slash of its path, which is not its first
-- byte, and the line after a colon.
pub marshal_caller_lem :
    (c : ℕ) (dir base : Bytes) (line : ℤ)
    → Lacks b'/' base
    → marshal_caller ((c ∷ dir) ++ b'/' ∷ base) line ≡ base ++ b':' ∷ show_int line
unfolding marshal_caller
marshal_caller_lem c dir base line lacks =
    let last : length ((c ∷ dir) ++ b'/' ∷ base) - 1 ≡ above (length base) (suc (length dir)) =
      omega (
        arith,
        length-append (c ∷ dir) (b'/' ∷ base),
        above-add (length base) (suc (length dir)),
      ) in
    ap (λ k. short_name k ((c ∷ dir) ++ b'/' ∷ base) ++ b':' ∷ show_int line) last
    ∙ ap (λ s. s ++ b':' ∷ show_int line)
        (short_name_lem c dir base (length base) lacks (omega arith))

last_part-append : (p q : Bytes) (ps qs : List Bytes) → last_part p (ps ++ q ∷ qs) ≡ last_part q qs
last_part-append p q [] qs = refl
last_part-append p q (r ∷ ps) qs = last_part-append r q ps qs

-- The module's name is what follows the last slash of its path.
pub get_module_name_lem :
    (path name : Bytes) → Lacks b'/' name → get_module_name (path ++ b'/' ∷ name) ≡ name
unfolding get_module_name
get_module_name_lem path name lacks =
    let (p, (ps, e)) = split-ne-nil b'/' path in
    ap base_of (
      split-append b'/' path name
      ∙ ap (λ l. split b'/' path ++ l) (split-Lacks b'/' name lacks)
      ∙ ap (λ l. l ++ name ∷ []) e)
    ∙ last_part-append p name ps []
