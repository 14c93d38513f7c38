-- ===== src/Conv.antt =====
-- The byte order conversions of src/conv.c, for a target other than ARM that keeps the low byte of
-- a number first. `none` stands for an access outside an array.
pub mod Bytes
pub mod Swap
mod Tests
use embedded_usbip.Prelude.{
  ℕ, zero, suc, ◌+◌, ◌-◌, ◌*◌, ◌/◌, ◌%◌, Option, none, some, List, [], ◌∷◌, length, get_elem?, set,
  ltb, if◌then◌else◌, copy_in,
}

-- The bytes of a number in the memory of the target, and the number that they are.
abbrev pub to_bytes : (size val : ℕ) → List ℕ
to_bytes zero val = []
to_bytes (suc size) val = val % 256 ∷ to_bytes size (val / 256)

abbrev pub of_bytes : List ℕ → ℕ
of_bytes [] = 0
of_bytes (b ∷ bs) = b + 256 * of_bytes bs

-- The loop of the macro `SWAP`, with `left` steps to go: `dst[i] = src[sizeof(type) - 1 - i]`.
abbrev pub swap_from : (left i : ℕ) (src dst : List ℕ) → Option (List ℕ)
swap_from zero i src dst = some dst
swap_from (suc left) i src dst = elim (get_elem? src (length src - 1 - i)) [
  | none ↦ none
  | some b ↦ if ltb i (length dst) then swap_from left (i + 1) src (set dst i b) else none
]

-- `SWAP(val, type)` on the bytes of `val`: `src` is a copy of `val`, and `dst` is `val` itself.
abbrev pub swap_bytes : (size : ℕ) → List ℕ → Option ℕ
swap_bytes size bytes = elim (swap_from size 0 bytes bytes) [
  | none ↦ none
  | some dst ↦ some (of_bytes dst)
]

unfoldable pub i_bswap16 : ℕ → Option ℕ
i_bswap16 val = swap_bytes 2 (to_bytes 2 val)

unfoldable pub i_bswap32 : ℕ → Option ℕ
i_bswap32 val = swap_bytes 4 (to_bytes 4 val)

unfoldable pub i_bswap64 : ℕ → Option ℕ
i_bswap64 val = swap_bytes 8 (to_bytes 8 val)

-- The swapped copy `tmp` is computed, and `val` is copied. The result is the buffer.
unfoldable pub i_swapcpy16 : List ℕ → ℕ → Option (List ℕ)
unfolding i_bswap16
i_swapcpy16 buf val = elim (i_bswap16 val) [
  | none ↦ none
  | some tmp ↦ copy_in buf 0 (to_bytes 2 val)
]

unfoldable pub i_swapcpy32 : List ℕ → ℕ → Option (List ℕ)
unfolding i_bswap32
i_swapcpy32 buf val = elim (i_bswap32 val) [
  | none ↦ none
  | some tmp ↦ copy_in buf 0 (to_bytes 4 val)
]

unfoldable pub i_swapcpy64 : List ℕ → ℕ → Option (List ℕ)
unfolding i_bswap64
i_swapcpy64 buf val = elim (i_bswap64 val) [
  | none ↦ none
  | some tmp ↦ copy_in buf 0 (to_bytes 8 val)
]
