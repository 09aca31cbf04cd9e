-- ===== src/Common/Int64.antt =====
-- Go's int64 and int on a 64-bit machine, as the bit pattern: a number below 2 ^ 64 whose upper
-- half stands for the negative values. Arithmetic wraps around.
use Prim.Native.Nat.{ℕ, ◌+◌, ◌-◌, ◌*◌, ◌%◌, ◌<◌}
use mathlib.Core.Bool.{Bool}
use nvelope.Common.Tests.{ltb, leb}

abbrev pub Int64 : Type 0
Int64 = ℕ

abbrev pub modulus : ℕ
modulus = 0x1_0000_0000_0000_0000

-- The least pattern that stands for a negative value.
abbrev pub sign_bit : ℕ
sign_bit = 0x8000_0000_0000_0000

unfoldable pub add64 : Int64 → Int64 → Int64
add64 a b = (a + b) % modulus

unfoldable pub sub64 : Int64 → Int64 → Int64
sub64 a b = (a + modulus - b) % modulus

unfoldable pub mul64 : Int64 → Int64 → Int64
mul64 a b = (a * b) % modulus

-- Signed comparison: the patterns in order, once the sign bit is flipped.
unfoldable pub lt64 : Int64 → Int64 → Bool
lt64 a b = ltb ((a + sign_bit) % modulus) ((b + sign_bit) % modulus)

unfoldable pub le64 : Int64 → Int64 → Bool
le64 a b = leb ((a + sign_bit) % modulus) ((b + sign_bit) % modulus)

-- The value is not negative.
abbrev pub IsNonNegative : Int64 → Type 0
IsNonNegative a = a < sign_bit
