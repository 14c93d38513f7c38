-- ===== src/StreamFifo.antt =====
-- The byte stream FIFO of src/queue.c (`stream_fifo_t` and its functions). A pointer into the
-- buffer is its distance from `start`; the bytes are a list of `buffer_len` bytes. A function that
-- updates `*queue` returns the new fifo beside its result, and `none` stands for an access outside
-- the buffer.
pub mod Contents
pub mod Push
pub mod Append
pub mod Pop
pub mod Refusals
pub mod RoundTrip
pub mod Socket
mod Tests
use embedded_usbip.Prelude.{
  ℕ, ◌+◌, ◌-◌, ◌≤◌, ◌<◌, ◌^◌, ◌≡◌, Option, none, some, List, ◌++◌, ltb, leb, ◌==◌, if◌then◌else◌,
  length, take, drop, copy_in, copy_out, add_size, sub_size, neg_size, to_int, neg_int, of_int,
  is_negative,
}

-- `stream_fifo_t`.
pub record StreamFifo : Type 0 where
  pub buf : List ℕ
  pub head : ℕ
  pub tail : ℕ
  pub buffer_len : ℕ

-- `sizeof(fifo_item_t)`: a packed length, pointer and byte.
abbrev pub sizeof_fifo_item : ℕ
sizeof_fifo_item = 17

-- ENOBUFS of the target's <errno.h>.
abbrev pub enobufs : ℕ
enobufs = 105

pub data InitError : Type 0 where
  einval erange : InitError

pub data InitResult : Type 0 where
  ok : StreamFifo → InitResult
  failed : InitError → InitResult

-- `buf` is `none` for a NULL pointer.
unfoldable pub stream_fifo_init : Option (List ℕ) → ℕ → InitResult
stream_fifo_init none buf_len = failed einval
stream_fifo_init (some b) buf_len =
    if ltb buf_len sizeof_fifo_item
    then failed erange
    else ok (record { buf = b; head = 0; tail = 0; buffer_len = buf_len })

-- The `int remaining` of `stream_fifo_push`.
unfoldable pub remaining : StreamFifo → ℕ
remaining q =
    let diff = to_int (sub_size q.tail q.head) in
    let whole = if q.head == q.tail then to_int q.buffer_len else diff in
    if is_negative whole then to_int (add_size q.buffer_len (of_int (neg_int whole))) else whole

-- The message in two parts, round the end of the buffer.
unfoldable pub push_parts : StreamFifo → List ℕ → (first_len : ℕ) → Option (List ℕ × ℕ)
push_parts q msg first_len = elim (copy_in q.buf q.tail (take first_len msg)) [
  | none ↦ none
  | some b ↦ elim (copy_in b 0 (drop first_len msg)) [
    | none ↦ none
    | some c ↦ some (c, length msg - first_len)
  ]
]

unfoldable pub push_wrapped : StreamFifo → List ℕ → Option (List ℕ × ℕ)
unfolding push_parts
push_wrapped q msg = push_parts q msg (of_int (to_int (sub_size q.buffer_len q.tail)))

unfoldable pub push_straight : StreamFifo → List ℕ → Option (List ℕ × ℕ)
push_straight q msg = elim (copy_in q.buf q.tail msg) [
  | none ↦ none
  | some b ↦ some (b, q.tail + length msg)
]

-- The result is the `ssize_t`, as a 64-bit pattern, beside the new fifo.
unfoldable pub stream_fifo_push : StreamFifo → List ℕ → Option (ℕ × StreamFifo)
unfolding remaining push_wrapped push_straight
stream_fifo_push q msg =
    if ltb (of_int (remaining q)) (length msg)
    then some (neg_size enobufs, q)
    else elim (if ltb q.buffer_len (q.tail + length msg)
        then push_wrapped q msg
        else push_straight q msg) [
          | none ↦ none
          | some (b, t) ↦ some (length msg, record q { buf = b; tail = t })
        ]

unfoldable pub stream_fifo_length : StreamFifo → ℕ
stream_fifo_length q =
    let diff = to_int (sub_size q.tail q.head) in
    of_int (if is_negative diff then to_int (add_size q.buffer_len (of_int diff)) else diff)

unfoldable pub pop_wrapped : StreamFifo → ℕ → Option (List ℕ × ℕ)
pop_wrapped q n =
    let first_len = of_int (to_int (sub_size q.buffer_len q.head)) in
    elim (copy_out q.buf q.head first_len) [
      | none ↦ none
      | some front ↦ elim (copy_out q.buf 0 (n - first_len)) [
        | none ↦ none
        | some back ↦ some (front ++ back, n - first_len)
      ]
    ]

unfoldable pub pop_straight : StreamFifo → ℕ → Option (List ℕ × ℕ)
pop_straight q n = elim (copy_out q.buf q.head n) [
  | none ↦ none
  | some out ↦ some (out, q.head + n)
]

-- The number of bytes popped, the bytes, and the new fifo. `int avail` goes back to `size_t` in
-- the comparison.
unfoldable pub stream_fifo_pop : StreamFifo → ℕ → Option (ℕ × List ℕ × StreamFifo)
unfolding stream_fifo_length pop_wrapped pop_straight
stream_fifo_pop q out_msg_len =
    let avail = of_int (to_int (stream_fifo_length q)) in
    let n = if ltb avail out_msg_len then avail else out_msg_len in
    elim (if ltb q.buffer_len (q.head + n) then pop_wrapped q n else pop_straight q n) [
      | none ↦ none
      | some (out, h) ↦ some (n, out, record q { head = h })
    ]

-- The bytes that the fifo holds, oldest first.
abbrev pub contents : StreamFifo → List ℕ
contents q =
    if leb q.head q.tail
    then take (q.tail - q.head) (drop q.head q.buf)
    else drop q.head q.buf ++ take q.tail q.buf

-- The representation invariant. The bound on the length keeps each `int` of the code in range.
pub record IsValid (q : StreamFifo) : Type 0 where
  pub storage : length q.buf ≡ q.buffer_len
  pub small : q.buffer_len < 2 ^ 30
  pub head_in : q.head ≤ q.buffer_len
  pub tail_in : q.tail ≤ q.buffer_len
