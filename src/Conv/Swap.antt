-- ===== src/Conv/Swap.antt =====
-- The theorems on the conversions of src/conv.c.
use embedded_usbip.Prelude.{
  ℕ, ◌^◌, ◌≤◌, ◌<◌, ◌≡◌, ap, drop, splice, copy_in, ◌++◌, ◌∙◌, Option, none, some, List, [], length,
  take, arith,
}
use embedded_usbip.Conv.{
  swap_bytes, to_bytes, i_bswap16, i_bswap32, i_bswap64, i_swapcpy16, i_swapcpy32, i_swapcpy64,
}
use embedded_usbip.Conv.Bytes.{
  reverse_onto, swapped-AllBytes, to_bytes-of_bytes, of_bytes-to_bytes, of_network_from,
}

-- Each byte swap gives the value of the bytes of its argument in network order, the first byte in
-- memory as the high one. In particular none leaves an array.
pub bswap-of_network :
    (u v w : ℕ)
    → (i_bswap16 u ≡ some (of_network_from 0 (to_bytes 2 u)))
      × (i_bswap32 v ≡ some (of_network_from 0 (to_bytes 4 v)))
      × (i_bswap64 w ≡ some (of_network_from 0 (to_bytes 8 w)))
unfolding i_bswap16 i_bswap32 i_bswap64
bswap-of_network u v w = (ap some (omega arith), ap some (omega arith), ap some (omega arith))

-- A second swap of a number below 2 ^ 16, 2 ^ 32 and 2 ^ 64 gives the number back.
pub bswap-bswap :
    (u v w : ℕ)
    → u < 2 ^ 16
    → v < 2 ^ 32
    → w < 2 ^ 64
    → (elim (i_bswap16 u) [ none ↦ none | some r ↦ i_bswap16 r ] ≡ some u)
      × (elim (i_bswap32 v) [ none ↦ none | some r ↦ i_bswap32 r ] ≡ some v)
      × (elim (i_bswap64 w) [ none ↦ none | some r ↦ i_bswap64 r ] ≡ some w)
unfolding i_bswap16 i_bswap32 i_bswap64
bswap-bswap u v w hu hv hw = (
  ap (swap_bytes 2) (to_bytes-of_bytes (reverse_onto (to_bytes 2 u) []) (swapped-AllBytes 2 u))
      ∙ ap some (of_bytes-to_bytes 2 u hu),
  ap (swap_bytes 4) (to_bytes-of_bytes (reverse_onto (to_bytes 4 v) []) (swapped-AllBytes 4 v))
      ∙ ap some (of_bytes-to_bytes 4 v hv),
  ap (swap_bytes 8) (to_bytes-of_bytes (reverse_onto (to_bytes 8 w) []) (swapped-AllBytes 8 w))
      ∙ ap some (of_bytes-to_bytes 8 w hw),
)

-- The value of the first bytes of a buffer in network order, when there is a buffer.
abbrev pub network_at : (size : ℕ) → Option (List ℕ) → Option ℕ
network_at size none = none
network_at size (some out) = some (of_network_from 0 (take size out))

-- A copy that the buffer has room for, at its start.
copied_first :
    (size val : ℕ) (buf : List ℕ)
    → length (to_bytes size val) ≤ length buf
    → copy_in buf 0 (to_bytes size val)
      ≡ some (to_bytes size val ++ drop (length (to_bytes size val)) buf)
unfolding splice
copied_first size val buf h = ground arith

-- Into a buffer of at least eight bytes, each `i_swapcpy` stores bytes whose value in network order
-- is the swapped value of its argument.
pub network-swapcpy :
    (buf : List ℕ) (u v w : ℕ)
    → 8 ≤ length buf
    → (network_at 2 (i_swapcpy16 buf u) ≡ i_bswap16 u)
      × (network_at 4 (i_swapcpy32 buf v) ≡ i_bswap32 v)
      × (network_at 8 (i_swapcpy64 buf w) ≡ i_bswap64 w)
unfolding i_bswap16 i_bswap32 i_bswap64 i_swapcpy16 i_swapcpy32 i_swapcpy64
network-swapcpy buf u v w h = (
  ap (network_at 2) (copied_first 2 u buf (omega arith)) ∙ ap some (omega arith),
  ap (network_at 4) (copied_first 4 v buf (omega arith)) ∙ ap some (omega arith),
  ap (network_at 8) (copied_first 8 w buf (omega arith)) ∙ ap some (omega arith),
)
