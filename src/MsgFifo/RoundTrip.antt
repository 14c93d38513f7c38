-- ===== src/MsgFifo/RoundTrip.antt =====
-- A message pushed into an empty message FIFO comes out again.
use embedded_usbip.Prelude.{
  ℕ, ◌+◌, ◌-◌, ◌≤◌, ◌<◌, ◌^◌, ◌≡◌, ◌≢◌, ap, ◌∙◌, some, List, length, take, drop, splice, arith,
}
use embedded_usbip.Conv.{to_bytes}
use embedded_usbip.Conv.Bytes.{of_bytes-to_bytes}
use embedded_usbip.MsgFifo.{
  MsgFifo, store, load, place, fifo_add_new_item, link_item, finish, msg_fifo_push, msg_fifo_pop,
  item_data,
}
use embedded_usbip.MsgFifo.Items.{
  with_null, with_header, with_item, length-with_null, length-with_header, length-with_item,
  len_bytes, next_bytes, data_bytes,
}

module _ (q : MsgFifo) (p off : ℕ) (in_buf : q.start ≤ p) (d : p - q.start ≡ off) where
  store_lem :
      (bytes : List ℕ)
      → off + length bytes ≤ length q.buf
      → store q p bytes ≡ some (record q { buf = splice off bytes q.buf })
  unfolding store
  store_lem bytes fits = ground (arith, d, in_buf)

  load_lem : (n : ℕ) → off + n ≤ length q.buf → load q p n ≡ some (take n (drop off q.buf))
  unfolding load
  load_lem n fits = ground (arith, d, in_buf)

module _ (q : MsgFifo) (msg : List ℕ) (in_buf : q.start ≤ q.head)
    (storage : length q.buf ≡ q.buffer_len)
    (room : q.head + length msg + 16 < q.start + q.buffer_len) where
  place_lem :
      (next_head : ℕ)
      → place q msg next_head
        ≡ some (record q { buf = with_item (q.head - q.start) msg q.buf; head = next_head })
  unfolding place fifo_add_new_item
  place_lem next_head = ground (
    arith,
    store_lem q (q.head + 8) (q.head - q.start + 8) (omega arith) (omega arith) (to_bytes 8 0)
        (omega arith),
    store_lem (record q { buf = with_null (q.head - q.start) q.buf }) q.head (q.head - q.start)
        (omega arith) (omega arith) (to_bytes 8 (length msg))
        (omega (arith, length-with_null (q.head - q.start) msg q.buf (omega arith))),
    store_lem (record q { buf = with_header (q.head - q.start) (length msg) q.buf }) (q.head + 16)
        (q.head - q.start + 16) (omega arith) (omega arith) msg
        (omega (arith, length-with_header (q.head - q.start) msg q.buf (omega arith))),
  )

-- `q` with the message at its head as the only item.
abbrev pub with_message : MsgFifo → List ℕ → MsgFifo
with_message q msg = record q {
  buf = with_item (q.head - q.start) msg q.buf;
  first = q.head;
  last = q.head;
  head = q.head + (length msg + 16);
}

module _ (q : MsgFifo) (msg : List ℕ) (not_null : q.start ≢ 0) (in_buf : q.start ≤ q.head)
    (storage : length q.buf ≡ q.buffer_len) (in_memory : q.start + q.buffer_len < 2 ^ 64)
    (room : q.head + length msg + 16 < q.start + q.buffer_len) where
  push-with_message : q.first ≡ 0 → msg_fifo_push q msg ≡ some (length msg, with_message q msg)
  unfolding msg_fifo_push finish link_item
  push-with_message e =
      ground (arith, place_lem q msg in_buf storage room (q.head + (length msg + 16)))

  load-with_message :
      (p off n : ℕ)
      → q.start ≤ p
      → p - q.start ≡ off
      → off + n ≤ length q.buf
      → load (with_message q msg) p n
        ≡ some (take n (drop off (with_item (q.head - q.start) msg q.buf)))
  load-with_message p off n ge d fits =
      load_lem (with_message q msg) p off ge d n
        (omega (arith, length-with_item (q.head - q.start) msg q.buf (omega arith)))

  load_len : load (with_message q msg) q.head 8 ≡ some (to_bytes 8 (length msg))
  load_len =
      load-with_message q.head (q.head - q.start) 8 in_buf (omega arith) (omega arith)
      ∙ ap some (len_bytes (q.head - q.start) msg q.buf (omega arith))

  load_next : load (with_message q msg) (q.head + 8) 8 ≡ some (to_bytes 8 0)
  load_next =
      load-with_message (q.head + 8) (q.head - q.start + 8) 8 (omega arith) (omega arith)
        (omega arith)
      ∙ ap some (next_bytes (q.head - q.start) msg q.buf (omega arith))

  load_data : load (with_message q msg) (q.head + 16) (length msg) ≡ some msg
  load_data =
      load-with_message (q.head + 16) (q.head - q.start + 16) (length msg) (omega arith)
        (omega arith) (omega arith)
      ∙ ap some (data_bytes (q.head - q.start) msg q.buf (omega arith))

  pop-with_message :
      (n : ℕ)
      → length msg ≤ n
      → msg_fifo_pop (with_message q msg) n
        ≡ some (length msg, msg, record (with_message q msg) { first = 0 })
  unfolding msg_fifo_pop item_data
  pop-with_message n le =
      ground (arith, load_len, load_next, load_data, of_bytes-to_bytes 8 (length msg) (omega arith))

  -- In a message FIFO without items, whose buffer lies at an address other than NULL and below
  -- 2^64 and has `buffer_len` bytes, and whose head is not before its start: a message that with
  -- its header ends before the end of the buffer is taken, and a pop with room for it returns it
  -- and leaves no item.
  pub msg_fifo_pop-msg_fifo_push :
      q.first ≡ 0
      → (n : ℕ) → length msg ≤ n
      → (r : MsgFifo) × (msg_fifo_push q msg ≡ some (length msg, r))
        × (msg_fifo_pop r n ≡ some (length msg, msg, record r { first = 0 }))
  msg_fifo_pop-msg_fifo_push e n le =
      (with_message q msg, push-with_message e, pop-with_message n le)
