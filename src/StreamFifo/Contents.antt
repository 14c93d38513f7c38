-- ===== src/StreamFifo/Contents.antt =====
-- What `contents` holds at each index, and the lengths that the `int` arithmetic computes.
use embedded_usbip.Prelude.{
  ℕ, ◌+◌, ◌-◌, ◌≤◌, ◌<◌, ap, ◌≡◌, none, arith, ltb, leb, ◌==◌, if◌then◌else◌, length, take, drop,
  get_elem?, get_elem?-append, get_elem?-take, get_elem?-drop, length-append, length-take,
  length-drop,
}
use embedded_usbip.StreamFifo.{StreamFifo, IsValid, contents, stream_fifo_length, remaining}

pub length-contents :
    {q : StreamFifo}
    → IsValid q
    → length (contents q)
      ≡ (if leb q.head q.tail then q.tail - q.head else q.buffer_len - q.head + q.tail)
length-contents {q} v = ground (
  arith,
  length-append (drop q.head q.buf) (take q.tail q.buf),
  length-take (q.tail - q.head) (drop q.head q.buf),
  length-take q.tail q.buf,
  length-drop q.head q.buf,
)

pub get_elem?-contents :
    {q : StreamFifo} (i : ℕ)
    → IsValid q
    → get_elem? (contents q) i ≡ (
        if leb q.head q.tail
        then (if ltb i (q.tail - q.head) then get_elem? q.buf (q.head + i) else none)
        else if ltb i (q.buffer_len - q.head)
        then get_elem? q.buf (q.head + i)
        else if ltb (i - (q.buffer_len - q.head)) q.tail
        then get_elem? q.buf (i - (q.buffer_len - q.head))
        else none)
get_elem?-contents {q} i v = ground (
  arith,
  get_elem?-append (drop q.head q.buf) (take q.tail q.buf) i,
  get_elem?-take (q.tail - q.head) (drop q.head q.buf) i,
  get_elem?-take q.tail q.buf (i - (q.buffer_len - q.head)),
  get_elem?-drop q.head q.buf i,
  length-drop q.head q.buf,
)

-- `stream_fifo_length` is the number of bytes that the fifo holds.
pub stream_fifo_length-contents :
    {q : StreamFifo} → IsValid q → stream_fifo_length q ≡ length (contents q)
unfolding stream_fifo_length
stream_fifo_length-contents {q} v = ground (arith, length-contents v)

-- What `stream_fifo_push` takes for the free space.
pub remaining_lem :
    {q : StreamFifo}
    → IsValid q
    → remaining q ≡ (
        if q.head == q.tail
        then q.buffer_len
        else if ltb q.head q.tail
        then q.tail - q.head
        else q.buffer_len + (q.head - q.tail))
unfolding remaining
remaining_lem v = ground arith

-- The same for a fifo that does not go round the end of its buffer, and for one that does.
module _ {q : StreamFifo} (v : IsValid q) where
  pub length-contents_flat : q.head ≤ q.tail → length (contents q) ≡ q.tail - q.head
  length-contents_flat h = ground (arith, length-contents v)

  pub length-contents_round : q.tail < q.head → length (contents q) ≡ q.buffer_len - q.head + q.tail
  length-contents_round h = ground (arith, length-contents v)

  pub get_elem?-contents_flat :
      (i : ℕ)
      → q.head ≤ q.tail
      → get_elem? (contents q) i
        ≡ (if ltb (q.head + i) q.tail then get_elem? q.buf (q.head + i) else none)
  get_elem?-contents_flat i h = ground (arith, get_elem?-contents i v)

  pub get_elem?-contents_round :
      (i : ℕ)
      → q.tail < q.head
      → get_elem? (contents q) i ≡ (
          if ltb (q.head + i) q.buffer_len
          then get_elem? q.buf (q.head + i)
          else if ltb (q.head + i) (q.buffer_len + q.tail)
          then get_elem? q.buf (q.head + i - q.buffer_len)
          else none)
  get_elem?-contents_round i h =
      ground (arith, get_elem?-contents i v, ap (get_elem? q.buf) (shift h))
    where
      shift : q.tail < q.head → q.head + i - q.buffer_len ≡ i - (q.buffer_len - q.head)
      shift h = omega arith
