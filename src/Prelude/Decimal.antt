-- ===== src/Prelude/Decimal.antt =====
-- Printing with `%d` and `strconv.Itoa`, and reading with `strconv.ParseInt(s, 10, bits)`; `Atoi` is
-- `ParseInt` at 64 bits. A reading that fails still returns a value: 0 on a syntax error, the
-- nearest bound where the number is out of range.
use Prim.Native.Nat.{ℕ, zero, suc, ◌+◌, ◌-◌, ◌*◌, ◌/◌, ◌%◌, ◌^◌, ◌≤◌}
use mathlib.Core.Bool.{Bool, true, false, ◌||◌}
use mathlib.Core.Logic.{inl, inr}
use mathlib.Core.List.{[], ◌∷◌}
use native.Mathlib.Omega.{arith}
use go_template_aerospike.Prelude.Tests.{ltb, leb, ◌==◌, if◌then◌else◌, Bool-cases}
use go_template_aerospike.Prelude.Lists.{All}
use go_template_aerospike.Prelude.Int.{ℤ, pos, negsuc}
use go_template_aerospike.Prelude.Text.{Bytes}

-- The fuel bounds the number of digits.
unfoldable pub digits : ℕ → ℕ → Bytes → Bytes
digits zero n out = out
digits (suc f) n out =
    let rest = digits f (n / 10) ((b'0' + n % 10) ∷ out) in
    if ltb n 10 then (b'0' + n) ∷ out else rest

unfoldable pub show_nat : ℕ → Bytes
unfolding digits
show_nat n = digits (suc n) n []

unfoldable pub show_int : ℤ → Bytes
unfolding show_nat
show_int (pos n) = show_nat n
show_int (negsuc n) = b'-' ∷ show_nat (suc n)

pub data Scan : Type 0 where
  number : ℕ → Scan
  syntax_error range_error : Scan

-- `strconv.ParseUint`: the loop stops at the first digit that takes the number to `m = 2 ^ bits`.
unfoldable pub scan : ℕ → Bytes → ℕ → Scan
scan m [] n = number n
scan m (c ∷ s) n =
    let rest = scan m s (n * 10 + (c - b'0')) in
    if ltb c b'0' || ltb b'9' c
    then syntax_error
    else if leb m (n * 10 + (c - b'0'))
    then range_error
    else rest

unfoldable pub parse_uint : ℕ → Bytes → Scan
unfolding scan
parse_uint m [] = syntax_error
parse_uint m (c ∷ s) = scan m (c ∷ s) 0

-- The value that `ParseInt` returns, and whether its error is not nil.
pub record Parsed : Type 0 where
  pub value : ℤ
  pub failed : Bool

abbrev pub good : ℤ → Parsed
good x = record { value = x; failed = false }

abbrev pub bad : ℤ → Parsed
bad x = record { value = x; failed = true }

-- `half` is `1 << (bits - 1)`; -half is `negsuc (half - 1)`.
abbrev pub within : ℕ → Scan → Parsed
within half syntax_error = bad (pos 0)
within half range_error = bad (pos (half - 1))
within half (number n) = if leb half n then bad (pos (half - 1)) else good (pos n)

abbrev pub negated : ℕ → Scan → Parsed
negated half syntax_error = bad (pos 0)
negated half range_error = bad (negsuc (half - 1))
negated half (number zero) = good (pos 0)
negated half (number (suc n)) =
    if ltb half (suc n) then bad (negsuc (half - 1)) else good (negsuc n)

unfoldable pub parse_int : ℕ → Bytes → Parsed
unfolding parse_uint
parse_int half [] = bad (pos 0)
parse_int half (c ∷ s) =
    if c == b'-'
    then negated half (parse_uint (half + half) s)
    else if c == b'+'
    then within half (parse_uint (half + half) s)
    else within half (parse_uint (half + half) (c ∷ s))

unfoldable pub atoi : Bytes → Parsed
unfolding parse_int
atoi s = parse_int (2 ^ 63) s

-- Every printed character is a digit.
pub digits-All :
    (f n : ℕ) (out : Bytes)
    → All (λ c. (b'0' ≤ c) × (c ≤ b'9')) out
    → All (λ c. (b'0' ≤ c) × (c ≤ b'9')) (digits f n out)
unfolding digits
digits-All zero n out h = h
digits-All (suc f) n out h = elim (Bool-cases (ltb n 10)) [
  | inl small ↦ rw small (ground arith, h)
  | inr large ↦ rw large (digits-All f (n / 10) _ (omega arith, h))
]
