-- ===== src/Prelude/Words.antt =====
-- Machine words of the target (LP64): a `size_t` is a number below 2^64 and an `int` is the bit
-- pattern below 2^32 of a two's complement number.
use Prim.Native.Nat.{ℕ, ◌+◌, ◌-◌, ◌%◌, ◌^◌, ◌≤◌, ◌<◌}
use mathlib.Core.Path.{◌≡◌}
use native.Mathlib.Omega.{arith}
use mathlib.Core.Bool.{Bool}
use embedded_usbip.Prelude.Tests.{leb, if◌then◌else◌}

-- `size_t` addition, subtraction and negation.
abbrev pub add_size : ℕ → ℕ → ℕ
add_size a b = (a + b) % 2 ^ 64

abbrev pub sub_size : ℕ → ℕ → ℕ
sub_size a b = (a + 2 ^ 64 - b) % 2 ^ 64

abbrev pub neg_size : ℕ → ℕ
neg_size a = sub_size 0 a

-- The conversion of a 64-bit value to `int`.
abbrev pub to_int : ℕ → ℕ
to_int a = a % 2 ^ 32

abbrev pub is_negative : ℕ → Bool
is_negative n = leb (2 ^ 31) n

abbrev pub neg_int : ℕ → ℕ
neg_int n = (2 ^ 32 - n) % 2 ^ 32

-- The conversion of an `int` to a 64-bit value extends the sign.
abbrev pub of_int : ℕ → ℕ
of_int n = if is_negative n then n + (2 ^ 64 - 2 ^ 32) else n

-- A small difference survives the way through `int`.
pub of_int_difference : (a b : ℕ) → b ≤ a → a < 2 ^ 31 → of_int (to_int (sub_size a b)) ≡ a - b
of_int_difference a b h small = ground arith
