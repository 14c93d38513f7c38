-- ===== src/MsgFifo.antt =====
-- The message FIFO of src/queue.c (`msg_fifo_t` and its functions), on a target that keeps the low
-- byte of a number first. Pointers are addresses, 0 is NULL, and the buffer is a list of bytes that
-- begins at the address `start`; items lie in it as their packed header and data. `none` stands for
-- an access outside the buffer.
pub mod Items
pub mod RoundTrip
mod Tests
use embedded_usbip.Prelude.{
  ℕ, Bool, [], ◌+◌, ◌-◌, Option, none, some, List, ◌++◌, ltb, leb, ◌==◌, ◌&&◌, not, if◌then◌else◌,
  length, take, drop, copy_in, copy_out, add_size, sub_size,
}
use embedded_usbip.Conv.{to_bytes, of_bytes}

-- `msg_fifo_t`, and the memory at `start`.
pub record MsgFifo : Type 0 where
  pub buf : List ℕ
  pub first : ℕ
  pub last : ℕ
  pub head : ℕ
  pub start : ℕ
  pub buffer_len : ℕ

-- `FIFO_HDR_LEN`: the length and the pointer of `fifo_item_t`.
abbrev pub fifo_hdr_len : ℕ
fifo_hdr_len = 16

pub data InitError : Type 0 where
  einval erange : InitError

pub data InitResult : Type 0 where
  ok : MsgFifo → InitResult
  failed : InitError → InitResult

-- `start` is 0 for a NULL `buf`; `last` keeps what it was.
unfoldable pub msg_fifo_init : (last : ℕ) (bytes : List ℕ) (start buf_len : ℕ) → InitResult
msg_fifo_init last bytes start buf_len =
    if start == 0
    then failed einval
    else if ltb buf_len (fifo_hdr_len + 1)
    then failed erange
    else ok (record {
      buf = bytes;
      first = 0;
      last = last;
      head = start;
      start = start;
      buffer_len = buf_len;
    })

-- `memcpy` to and from an address.
unfoldable pub store : MsgFifo → ℕ → List ℕ → Option MsgFifo
store q p bytes = if ltb p q.start then none else elim (copy_in q.buf (p - q.start) bytes) [
  | none ↦ none
  | some b ↦ some (record q { buf = b })
]

unfoldable pub load : MsgFifo → ℕ → ℕ → Option (List ℕ)
load q p n = if ltb p q.start then none else copy_out q.buf (p - q.start) n

-- `item->len = v` and `item->next = v`.
abbrev pub set_len : MsgFifo → ℕ → ℕ → Option MsgFifo
set_len q item v = store q item (to_bytes 8 v)

abbrev pub set_next : MsgFifo → ℕ → ℕ → Option MsgFifo
set_next q item v = store q (item + 8) (to_bytes 8 v)

-- The new item is the one at `head`.
unfoldable pub fifo_add_new_item : MsgFifo → (msg_len : ℕ) → Option MsgFifo
fifo_add_new_item q msg_len = elim (set_next q q.head 0) [
  | none ↦ none
  | some r ↦ set_len r q.head msg_len
]

-- A new item with the whole message behind its header; `next_head` is the new head.
unfoldable pub place : MsgFifo → List ℕ → (next_head : ℕ) → Option MsgFifo
unfolding fifo_add_new_item
place q msg next_head = elim (fifo_add_new_item q (length msg)) [
  | none ↦ none
  | some r ↦ elim (store r (q.head + fifo_hdr_len) msg) [
    | none ↦ none
    | some s ↦ some (record s { head = next_head })
  ]
]

-- A new item whose data goes on at the start of the buffer.
unfoldable pub place_split : MsgFifo → List ℕ → (first_block_len : ℕ) → Option MsgFifo
unfolding fifo_add_new_item
place_split q msg first_block_len = elim (fifo_add_new_item q (length msg)) [
  | none ↦ none
  | some r ↦ elim (store r (q.head + fifo_hdr_len) (take first_block_len msg)) [
    | none ↦ none
    | some s ↦ elim (store s s.start (drop first_block_len msg)) [
      | none ↦ none
      | some t ↦ some (record t { head = t.start + (length msg - first_block_len) })
    ]
  ]
]

-- The new item at `item` becomes the last one.
unfoldable pub link_item : MsgFifo → (item : ℕ) → Option MsgFifo
link_item q item =
    if q.first == 0
    then some (record q { first = item; last = item })
    else elim (set_next q q.last item) [ none ↦ none | some r ↦ some (record r { last = item }) ]

-- `queue->first != NULL && p >= queue->first`
abbrev pub overwrites : MsgFifo → ℕ → Bool
overwrites q p = not (q.first == 0) && leb q.first p

-- What `msg_fifo_push` returns after a new item was made at `item`.
unfoldable pub finish : Option MsgFifo → (item msg_len : ℕ) → Option (ℕ × MsgFifo)
unfolding link_item
finish none item msg_len = none
finish (some q) item msg_len = elim (link_item q item) [ none ↦ none | some r ↦ some (msg_len, r) ]

unfoldable pub push_wrapping : MsgFifo → List ℕ → Option (ℕ × MsgFifo)
unfolding finish place place_split
push_wrapping q msg =
    let first_block_len = q.start + q.buffer_len - q.head in
    let over = overwrites q (q.start + add_size (length msg) fifo_hdr_len - first_block_len) in
    let q' = record q { head = q.start } in
    if ltb first_block_len fifo_hdr_len
    then (if over
        then some (0, q')
        else finish (place q' msg (q.start + length msg)) q.start (length msg))
    else if over
    then some (0, q)
    else finish (place_split q msg (first_block_len - fifo_hdr_len)) q.head (length msg)

-- The number of bytes pushed, and the new fifo.
unfoldable pub msg_fifo_push : MsgFifo → List ℕ → Option (ℕ × MsgFifo)
unfolding push_wrapping finish place
msg_fifo_push q msg =
    if ltb q.buffer_len (add_size (length msg) fifo_hdr_len)
    then some (0, q)
    else if leb (q.start + q.buffer_len) (q.head + length msg + fifo_hdr_len)
    then push_wrapping q msg
    else if overwrites q (q.head + length msg + fifo_hdr_len)
    then some (0, q)
    else finish (place q msg (q.head + (length msg + fifo_hdr_len))) q.head (length msg)

-- The data of an item of `len` bytes.
unfoldable pub item_data : MsgFifo → (item len : ℕ) → Option (List ℕ)
unfolding load
item_data q item len =
    let first_block_len = sub_size (q.start + q.buffer_len) (item + fifo_hdr_len) in
    if ltb (q.start + q.buffer_len) (item + len + fifo_hdr_len)
    then elim (load q (item + fifo_hdr_len) first_block_len) [
      | none ↦ none
      | some front ↦ elim (load q q.start (sub_size len first_block_len)) [
        | none ↦ none
        | some back ↦ some (front ++ back)
      ]
    ]
    else load q (item + fifo_hdr_len) len

-- The number of bytes popped, the bytes, and the new fifo.
unfoldable pub msg_fifo_pop : MsgFifo → (out_msg_len : ℕ) → Option (ℕ × List ℕ × MsgFifo)
unfolding item_data load
msg_fifo_pop q out_msg_len = if q.first == 0 then some (0, [], q) else elim (load q q.first 8) [
  | none ↦ none
  | some len_bytes ↦
      let len = of_bytes len_bytes in
      if ltb out_msg_len len then some (0, [], q) else elim (load q (q.first + 8) 8) [
        | none ↦ none
        | some next_bytes ↦ elim (item_data q q.first len) [
          | none ↦ none
          | some out ↦ some (len, out, record q { first = of_bytes next_bytes })
        ]
      ]
]
