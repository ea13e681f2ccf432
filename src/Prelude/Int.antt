-- ===== src/Prelude/Int.antt =====
-- Signed integers over the native numbers, and Go's conversions to int32 and int64.
use Prim.Native.Nat.{ℕ, ◌+◌, ◌-◌, ◌%◌, ◌^◌, ◌<◌}
use mathlib.Core.Path.{◌≡◌, refl}
use mathlib.Core.Logic.{◌↔◌}
use mathlib.Core.Bool.{Bool, true, false}
use native.Mathlib.Omega.{arith}
use go_template_aerospike.Prelude.Tests.{ltb, ◌==◌, if◌then◌else◌}

-- `negsuc n` is -(n + 1).
pub data ℤ : Type 0 where
  pos : ℕ → ℤ
  negsuc : ℕ → ℤ

abbrev pub eqb_ℤ : ℤ → ℤ → Bool
eqb_ℤ (pos a) (pos b) = a == b
eqb_ℤ (negsuc a) (negsuc b) = a == b
eqb_ℤ (pos a) (negsuc b) = false
eqb_ℤ (negsuc a) (pos b) = false

pub eqb_ℤ_iff : (a b : ℤ) → (eqb_ℤ a b ≡ true) ↔ (a ≡ b)
eqb_ℤ_iff (pos a) (pos b) = ground arith
eqb_ℤ_iff (negsuc a) (negsuc b) = ground arith
eqb_ℤ_iff (pos a) (negsuc b) = ground arith
eqb_ℤ_iff (negsuc a) (pos b) = ground arith

pub eqb_ℤ_refl : (a : ℤ) → eqb_ℤ a a ≡ true
eqb_ℤ_refl a = (eqb_ℤ_iff a a).1 refl

abbrev pub ltb_ℤ : ℤ → ℤ → Bool
ltb_ℤ (pos a) (pos b) = ltb a b
ltb_ℤ (negsuc a) (negsuc b) = ltb b a
ltb_ℤ (pos a) (negsuc b) = false
ltb_ℤ (negsuc a) (pos b) = true

-- The low bits of the two's complement of an integer, below the modulus.
abbrev pub low : ℕ → ℤ → ℕ
low m (pos n) = n % m
low m (negsuc n) = m - 1 - n % m

-- The integer that a bit pattern below `2 * half` stands for in two's complement.
abbrev pub signed : ℕ → ℕ → ℤ
signed half w = if ltb w half then pos w else negsuc (half + half - 1 - w)

-- Go's `int32(x)` and `int64(x)`: the value is truncated, with no error.
unfoldable pub to_int32 : ℤ → ℤ
to_int32 x = signed (2 ^ 31) (low (2 ^ 32) x)

unfoldable pub to_int64 : ℤ → ℤ
to_int64 x = signed (2 ^ 63) (low (2 ^ 64) x)

abbrev pub Fits : ℕ → ℤ → Type 0
Fits half (pos n) = n < half
Fits half (negsuc n) = n < half

abbrev pub IsInt32 : ℤ → Type 0
IsInt32 = Fits (2 ^ 31)

abbrev pub IsInt64 : ℤ → Type 0
IsInt64 = Fits (2 ^ 63)

pub to_int32_id : (x : ℤ) → IsInt32 x → to_int32 x ≡ x
unfolding to_int32
to_int32_id (pos n) h = ground arith
to_int32_id (negsuc n) h = ground arith

pub to_int64_id : (x : ℤ) → IsInt64 x → to_int64 x ≡ x
unfolding to_int64
to_int64_id (pos n) h = ground arith
to_int64_id (negsuc n) h = ground arith

pub Int32-IsInt64 : (x : ℤ) → IsInt32 x → IsInt64 x
Int32-IsInt64 (pos n) h = omega arith
Int32-IsInt64 (negsuc n) h = omega arith

pub to_int32-IsInt32 : (x : ℤ) → IsInt32 (to_int32 x)
unfolding to_int32
to_int32-IsInt32 (pos n) = ground arith
to_int32-IsInt32 (negsuc n) = ground arith
