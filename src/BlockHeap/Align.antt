-- ===== src/BlockHeap/Align.antt =====
-- Sizes that `heap_alloc` rounds up to the alignment.
use Prim.Native.Nat.{bit_and, bit_and-bitwise, min}
use native.Mathlib.Nat.{div-add-mod, mod-lt}
use embedded_usbip.Prelude.{
  ℕ, sym, subst, ◌+◌, ◌-◌, ◌*◌, ◌/◌, ◌%◌, ◌^◌, ◌≡◌, ◌≤◌, ◌<◌, arith, zero, suc,
}
use embedded_usbip.BlockHeap.{aligned_size}

bit_and-parity : (a b : ℕ) → bit_and a b % 2 ≡ min (a % 2) (b % 2)
bit_and-parity zero b = omega (arith, bit_and-bitwise zero b)
bit_and-parity (suc a) b = omega (arith, bit_and-bitwise (suc a) b)

-- A multiple of an even number, and what is missing to it.
rounded_even : (size h q r : ℕ) → size ≡ (2 * h) * q + r → r < 2 * h → (size + (2 * h - r)) % 2 ≡ 0
rounded_even size h q r e lt = grind (arith, multiple h q)
  where
    -- With what is missing, `q + 1` times the number.
    multiple : (h q : ℕ) → 2 * h * q + 2 * h ≡ 2 * (h * q + h)
    multiple h q = omega (arith, ring h q)
      where
        ring : (h q : ℕ) → 2 * h * q ≡ 2 * (h * q)
        ring h q = grind arith

halves : (size h : ℕ) → 0 < h → (size + (2 * h - size % (2 * h))) % 2 ≡ 0
halves size h pos =
    rounded_even size h (size / (2 * h)) (size % (2 * h)) (sym (div-add-mod size (2 * h)))
      (mod-lt size (omega arith))

missing_even :
    (size alignment : ℕ)
    → alignment % 2 ≡ 0
    → 2 ≤ alignment
    → (size + (alignment - size % alignment)) % 2 ≡ 0
missing_even size alignment even big =
    subst (λ m. (size + (m - size % m)) % 2 ≡ 0) {x = 2 * (alignment / 2)} {y = alignment}
      (omega arith) (halves size (alignment / 2) (omega arith))

odd_below : (alignment : ℕ) → alignment % 2 ≡ 0 → 2 ≤ alignment → (alignment - 1) % 2 ≡ 1
odd_below alignment even big = omega arith

-- `is_aligned` looks at the lowest bit of the size, among others.
pub aligned_even :
    (size alignment : ℕ)
    → alignment % 2 ≡ 0
    → 2 ≤ alignment
    → bit_and size (alignment - 1) ≡ 0
    → size % 2 ≡ 0
aligned_even size alignment even big e =
    omega (arith, bit_and-parity size (alignment - 1), odd_below alignment even big, e)

pub aligned_size_even :
    (size alignment : ℕ) → alignment % 2 ≡ 0 → 2 ≤ alignment → aligned_size size alignment % 2 ≡ 0
unfolding aligned_size
aligned_size_even size alignment even big =
    ground (arith, missing_even size alignment even big, aligned_even size alignment even big)

pub aligned_size-ge :
    (size alignment : ℕ) → size + alignment < 2 ^ 64 → size ≤ aligned_size size alignment
unfolding aligned_size
aligned_size-ge size alignment room = ground arith
