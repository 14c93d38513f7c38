-- ===== src/MsgFifo/Items.antt =====
-- The bytes that an item of the message FIFO occupies in its buffer: windows of a spliced buffer,
-- and the two header fields and the data of a new item.
use embedded_usbip.Prelude.{
  ℕ, ◌+◌, ◌-◌, ◌≤◌, ◌≡◌, ap, ◌∙◌, none, List, length, take, drop, splice, length-splice,
  get_elem?-splice, ext_get, get_elem?-take, get_elem?-drop, arith, get_elem?-none, get_elem?, ltb,
  if◌then◌else◌,
}
use embedded_usbip.Conv.{to_bytes}

-- A window of a buffer by index.
get_window :
    (p n : ℕ) (buf : List ℕ) (i : ℕ)
    → get_elem? (take n (drop p buf)) i ≡ (if ltb i n then get_elem? buf (p + i) else none)
get_window p n buf i = ground (arith, get_elem?-take n (drop p buf) i, get_elem?-drop p buf i)

window-splice :
    (off : ℕ) (src buf : List ℕ)
    → off + length src ≤ length buf
    → take (length src) (drop off (splice off src buf)) ≡ src
window-splice off src buf fits = ext_get _ src (λ i. ground (
  arith,
  get_window off (length src) (splice off src buf) i,
  get_elem?-splice off src buf (off + i),
  get_elem?-none src i,
  same i,
))
  where
    same : (i : ℕ) → get_elem? src (off + i - off) ≡ get_elem? src i
    same i = ap (get_elem? src) (omega arith)

window-splice_before :
    (p n off : ℕ) (src buf : List ℕ)
    → off + length src ≤ length buf
    → p + n ≤ off
    → take n (drop p (splice off src buf)) ≡ take n (drop p buf)
window-splice_before p n off src buf fits before = ext_get _ _ (λ i. ground (
  arith,
  get_window p n (splice off src buf) i,
  get_elem?-splice off src buf (p + i),
  get_window p n buf i,
))

window-splice_behind :
    (p n off : ℕ) (src buf : List ℕ)
    → off + length src ≤ length buf
    → off + length src ≤ p
    → take n (drop p (splice off src buf)) ≡ take n (drop p buf)
window-splice_behind p n off src buf fits behind = ext_get _ _ (λ i. ground (
  arith,
  get_window p n (splice off src buf) i,
  get_elem?-splice off src buf (p + i),
  get_window p n buf i,
))

-- The buffer after an item with the data `msg` is made at the offset `off`.
abbrev pub with_null : (off : ℕ) → List ℕ → List ℕ
with_null off buf = splice (off + 8) (to_bytes 8 0) buf

abbrev pub with_header : (off len : ℕ) → List ℕ → List ℕ
with_header off len buf = splice off (to_bytes 8 len) (with_null off buf)

abbrev pub with_item : (off : ℕ) (msg buf : List ℕ) → List ℕ
with_item off msg buf = splice (off + 16) msg (with_header off (length msg) buf)

module _ (off : ℕ) (msg buf : List ℕ) (fits : off + 16 + length msg ≤ length buf) where
  pub length-with_null : length (with_null off buf) ≡ length buf
  length-with_null = length-splice (off + 8) (to_bytes 8 0) buf (omega arith)

  pub length-with_header : length (with_header off (length msg) buf) ≡ length buf
  length-with_header =
      length-splice off (to_bytes 8 (length msg)) (with_null off buf)
        (omega (arith, length-with_null))
      ∙ length-with_null

  pub length-with_item : length (with_item off msg buf) ≡ length buf
  length-with_item =
      length-splice (off + 16) msg (with_header off (length msg) buf)
        (omega (arith, length-with_header))
      ∙ length-with_header

  pub len_bytes : take 8 (drop off (with_item off msg buf)) ≡ to_bytes 8 (length msg)
  len_bytes =
      window-splice_before off 8 (off + 16) msg (with_header off (length msg) buf)
        (omega (arith, length-with_header)) (omega arith)
      ∙ window-splice off (to_bytes 8 (length msg)) (with_null off buf)
          (omega (arith, length-with_null))

  pub next_bytes : take 8 (drop (off + 8) (with_item off msg buf)) ≡ to_bytes 8 0
  next_bytes =
      window-splice_before (off + 8) 8 (off + 16) msg (with_header off (length msg) buf)
        (omega (arith, length-with_header)) (omega arith)
      ∙ window-splice_behind (off + 8) 8 off (to_bytes 8 (length msg)) (with_null off buf)
          (omega (arith, length-with_null)) (omega arith)
      ∙ window-splice (off + 8) (to_bytes 8 0) buf (omega arith)

  pub data_bytes : take (length msg) (drop (off + 16) (with_item off msg buf)) ≡ msg
  data_bytes =
      window-splice (off + 16) msg (with_header off (length msg) buf)
        (omega (arith, length-with_header))
