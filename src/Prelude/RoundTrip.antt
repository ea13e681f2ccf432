-- ===== src/Prelude/RoundTrip.antt =====
-- Reading back what was printed, and what follows: printing tells different numbers apart.
use Prim.Native.Nat.{ℕ, zero, suc, ◌+◌, ◌*◌, ◌/◌, ◌%◌, ◌^◌, ◌≤◌, ◌<◌}
use mathlib.Core.Path.{◌≡◌, refl, sym, ap, ◌∙◌}
use mathlib.Core.Logic.{◌≢◌, inl, inr}
use mathlib.Core.List.{[], ◌∷◌, ◌++◌}
use native.Mathlib.Omega.{arith}
use go_template_aerospike.Prelude.Tests.{ltb, Bool-cases}
use go_template_aerospike.Prelude.Lists.{All}
use go_template_aerospike.Prelude.Int.{ℤ, pos, negsuc, Fits, IsInt64}
use go_template_aerospike.Prelude.Text.{Bytes}
use go_template_aerospike.Prelude.Decimal.{
  digits, show_nat, show_int, number, scan, parse_uint, Parsed, within, parse_int, good, digits-All,
}

scan-digit :
    (m d n : ℕ) (s : Bytes)
    → d < 10
    → n * 10 + d < m
    → scan m ((b'0' + d) ∷ s) n ≡ scan m s (n * 10 + d)
unfolding scan
scan-digit m d n s h k = ground arith

scan-digits : (m f n : ℕ) (out : Bytes) → n < f → n < m → scan m (digits f n out) 0 ≡ scan m out n
unfolding digits
scan-digits m zero n out h k = absurd (omega arith)
scan-digits m (suc f) n out h k = elim (Bool-cases (ltb n 10)) [
  | inl small ↦
      rw small (scan-digit m n 0 out (ground arith) (omega arith) ∙ ap (scan m out) (omega arith))
  | inr large ↦ rw large (
      scan-digits m f (n / 10) ((b'0' + n % 10) ∷ out) (ground arith) (ground arith)
      ∙ scan-digit m (n % 10) (n / 10) out (omega arith) (omega arith)
      ∙ ap (scan m out) (omega arith))
]

digits-ne-nil : (f n c : ℕ) (out : Bytes) → digits f n (c ∷ out) ≢ []
unfolding digits
digits-ne-nil zero n c out e = ground arith
digits-ne-nil (suc f) n c out e = ground (arith, digits-ne-nil f (n / 10) (b'0' + n % 10) (c ∷ out))

parse_uint-cons : (m : ℕ) (s : Bytes) → s ≢ [] → parse_uint m s ≡ scan m s 0
unfolding parse_uint
parse_uint-cons m [] h = absurd (h refl)
parse_uint-cons m (c ∷ s) h = refl

show_nat-ne-nil : (n : ℕ) → show_nat n ≢ []
unfolding show_nat
show_nat-ne-nil n e = ground (arith, digits-ne-nil n (n / 10) (b'0' + n % 10) [])

pub parse_uint-show_nat : (m n : ℕ) → n < m → parse_uint m (show_nat n) ≡ number n
unfolding show_nat scan
parse_uint-show_nat m n h =
    parse_uint-cons m (show_nat n) (show_nat-ne-nil n) ∙ scan-digits m (suc n) n [] (omega arith) h

pub show_nat-All : (n : ℕ) → All (λ c. (b'0' ≤ c) × (c ≤ b'9')) (show_nat n)
unfolding show_nat
show_nat-All n = digits-All (suc n) n [] tt

parse_int_unsigned :
    (half : ℕ) (s : Bytes)
    → All (λ c. (b'0' ≤ c) × (c ≤ b'9')) s
    → s ≢ []
    → parse_int half s ≡ within half (parse_uint (half + half) s)
unfolding parse_int
parse_int_unsigned half [] h k = absurd (k refl)
parse_int_unsigned half (c ∷ s) h k = ground arith

-- What `%d` prints, `ParseInt` reads back, at every width that holds the number.
pub parse_int-show_int : (half : ℕ) (x : ℤ) → Fits half x → parse_int half (show_int x) ≡ good x
unfolding show_int
parse_int-show_int half (pos n) h =
    rw (parse_int_unsigned half (show_nat n) (show_nat-All n) (show_nat-ne-nil n))
      (rw (parse_uint-show_nat (half + half) n (omega arith)) (ground arith))
parse_int-show_int half (negsuc n) h =
    unfold parse_int in rw (parse_uint-show_nat (half + half) (suc n) (omega arith)) (ground arith)

pub show_int-injective : (a b : ℤ) → IsInt64 a → IsInt64 b → show_int a ≡ show_int b → a ≡ b
show_int-injective a b ha hb e =
    let back = parse_int-show_int (2 ^ 63) a ha in
    let back' = parse_int-show_int (2 ^ 63) b hb in
    ap Parsed.value (sym back ∙ ap (parse_int (2 ^ 63)) e ∙ back')

abbrev pub Lacks : ℕ → Bytes → Type 0
Lacks b = All (λ c. c ≢ b)

digits_lack : (s : Bytes) → All (λ c. (b'0' ≤ c) × (c ≤ b'9')) s → Lacks b':' s
digits_lack [] h = tt
digits_lack (c ∷ s) (h, hs) = ((λ e. omega arith), digits_lack s hs)

pub show_int-Lacks : (x : ℤ) → Lacks b':' (show_int x)
unfolding show_int
show_int-Lacks (pos n) = digits_lack (show_nat n) (show_nat-All n)
show_int-Lacks (negsuc n) =
    ((λ e. omega arith), digits_lack (show_nat (suc n)) (show_nat-All (suc n)))

-- Two texts joined by a separator that the first parts lack have equal parts.
pub split_unique :
    (c : ℕ) (s s' t t' : Bytes)
    → Lacks c s
    → Lacks c s'
    → s ++ c ∷ t ≡ s' ++ c ∷ t'
    → (s ≡ s') × (t ≡ t')
split_unique c [] [] t t' h h' e = ground arith
split_unique c [] (a ∷ s') t t' h h' e = absurd (h'.0 (ground arith))
split_unique c (a ∷ s) [] t t' h h' e = absurd (h.0 (ground arith))
split_unique c (a ∷ s) (a' ∷ s') t t' h h' e = ground (arith, split_unique c s s' t t' h.1 h'.1)
