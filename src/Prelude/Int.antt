-- ===== src/Prelude/Int.antt =====
-- The C `int` and `long` values that the program passes on: integers over the native numbers. The
-- program does no arithmetic on them; where it stores one in a narrower or an unsigned type, the
-- conversion is written out, for a `long` of 64 bits.
use Prim.Native.Nat.{ℕ, ◌-◌, ◌%◌, ◌^◌}
use mathlib.Core.Path.{◌≡◌}
use mathlib.Core.Logic.{◌↔◌}
use mathlib.Core.Bool.{Bool, true, false}
use native.Mathlib.Omega.{arith}
use pylibssh.Prelude.Tests.{◌==◌, ltb, if◌then◌else◌}

-- `negsuc n` is -(n + 1).
pub data ℤ : Type 0 where
  pos : ℕ → ℤ
  negsuc : ℕ → ℤ

-- n < 0
abbrev pub is_negative : ℤ → Bool
is_negative (pos n) = false
is_negative (negsuc n) = true

-- n == 0
abbrev pub is_zero : ℤ → Bool
is_zero (pos n) = n == 0
is_zero (negsuc n) = false

-- a == b
abbrev pub int_eq : ℤ → ℤ → Bool
int_eq (pos a) (pos b) = a == b
int_eq (pos a) (negsuc b) = false
int_eq (negsuc a) (pos b) = false
int_eq (negsuc a) (negsuc b) = a == b

-- The lowest `width` bits, in two's complement.
abbrev pub low_bits : ℕ → ℤ → ℕ
low_bits width (pos n) = n % 2 ^ width
low_bits width (negsuc n) = 2 ^ width - 1 - n % 2 ^ width

-- A value that is stored in an `int`.
abbrev pub to_int : ℤ → ℤ
to_int n =
    let bits = low_bits 32 n in if ltb bits (2 ^ 31) then pos bits else negsuc (2 ^ 32 - 1 - bits)

-- A value that is stored in an `unsigned long`.
abbrev pub to_unsigned_long : ℤ → ℕ
to_unsigned_long = low_bits 64

pub int_eq_iff : (a b : ℤ) → (int_eq a b ≡ true) ↔ (a ≡ b)
int_eq_iff (pos a) (pos b) = ground arith
int_eq_iff (pos a) (negsuc b) = ground arith
int_eq_iff (negsuc a) (pos b) = ground arith
int_eq_iff (negsuc a) (negsuc b) = ground arith

pub int_eq_refl : (a : ℤ) → int_eq a a ≡ true
int_eq_refl (pos a) = ground arith
int_eq_refl (negsuc a) = ground arith
