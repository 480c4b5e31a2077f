-- ===== src/Prelude/Int.antt =====
-- The C `int`: return codes, and the conversions between `off_t`, `int` and `size_t`.
use Prim.Native.Nat.{ℕ, ◌-◌, ◌%◌}
use mathlib.Core.Bool.{Bool, false}
use libpssh.Prelude.Tests.{ltb, leb, ◌==◌, if◌then◌else◌}

-- `negsuc n` is -(n + 1).
pub data ℤ : Type 0 where
  pos : ℕ → ℤ
  negsuc : ℕ → ℤ

abbrev pub minus_one : ℤ
minus_one = negsuc 0

abbrev pub is_zero : ℤ → Bool
is_zero (pos n) = n == 0
is_zero (negsuc n) = false

abbrev pub is_minus_one : ℤ → Bool
is_minus_one (pos n) = false
is_minus_one (negsuc n) = n == 0

-- a - b, as an integer.
abbrev pub sub_ℕ : ℕ → ℕ → ℤ
sub_ℕ a b = if leb b a then pos (a - b) else negsuc (b - a - 1)

-- The largest `int` is int_limit - 1; a sum that reaches the limit is no `int`.
abbrev pub int_limit : ℕ
int_limit = 0x8000_0000

-- The `int` with the 32 low bits of a number.
abbrev pub int_of_bits : ℕ → ℤ
int_of_bits n = if ltb n int_limit then pos n else negsuc (0xFFFF_FFFF - n)

-- A 64-bit value stored in an `int`.
unfoldable pub to_int : ℤ → ℤ
to_int (pos n) = int_of_bits (n % 0x1_0000_0000)
to_int (negsuc n) = int_of_bits (0xFFFF_FFFF - n % 0x1_0000_0000)

-- An `int` passed as a `size_t`.
unfoldable pub to_size : ℤ → ℕ
to_size (pos n) = n
to_size (negsuc n) = 0xFFFF_FFFF_FFFF_FFFF - n

-- a == b for a number b.
abbrev pub eq_ℕ : ℤ → ℕ → Bool
eq_ℕ (pos n) b = n == b
eq_ℕ (negsuc n) b = false

-- if (a > b) for a number b.
abbrev pub gtb_ℤ : ℤ → ℕ → Bool
gtb_ℤ (pos n) b = ltb b n
gtb_ℤ (negsuc n) b = false
