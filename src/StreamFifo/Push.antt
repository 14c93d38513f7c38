-- ===== src/StreamFifo/Push.antt =====
-- `stream_fifo_push`: which messages it takes, and what it does with them.
use embedded_usbip.Prelude.{
  ℕ, ◌+◌, ◌-◌, ◌≤◌, ◌<◌, ◌≡◌, some, arith, List, ltb, if◌then◌else◌, length, take, drop,
  length-take, length-drop, splice, length-splice, neg_size, lt-or-le, inl, inr, lt→ltb, le→ltb,
}
use native.Mathlib.Nat.{le_trans}
use embedded_usbip.StreamFifo.{
  StreamFifo, IsValid, stream_fifo_push, push_wrapped, push_straight, remaining, enobufs,
}
use embedded_usbip.StreamFifo.Contents.{remaining_lem}

-- The fifo after a push that is taken.
abbrev pub wrapped : StreamFifo → List ℕ → StreamFifo
wrapped q msg =
    let first = q.buffer_len - q.tail in
    record q {
      buf = splice 0 (drop first msg) (splice q.tail (take first msg) q.buf);
      tail = length msg - first;
    }

abbrev pub straight : StreamFifo → List ℕ → StreamFifo
straight q msg = record q { buf = splice q.tail msg q.buf; tail = q.tail + length msg }

abbrev pub pushed : StreamFifo → List ℕ → StreamFifo
pushed q msg = if ltb q.buffer_len (q.tail + length msg) then wrapped q msg else straight q msg

module _ {q : StreamFifo} (msg : List ℕ) (v : IsValid q) where
  straight_run :
      q.tail + length msg ≤ q.buffer_len
      → push_straight q msg ≡ some (splice q.tail msg q.buf, q.tail + length msg)
  unfolding push_straight
  straight_run fit = ground arith

  wrapped_run :
      length msg ≤ q.buffer_len + (q.buffer_len - q.tail)
      → q.buffer_len < q.tail + length msg
      → push_wrapped q msg ≡ some ((wrapped q msg).buf, (wrapped q msg).tail)
  unfolding push_wrapped
  wrapped_run fit over = ground (
    arith,
    length-take (q.buffer_len - q.tail) msg,
    length-drop (q.buffer_len - q.tail) msg,
    length-splice q.tail (take (q.buffer_len - q.tail) msg) q.buf,
  )

  -- A message longer than `remaining` is refused with -ENOBUFS, and nothing changes.
  pub push-enobufs : remaining q < length msg → stream_fifo_push q msg ≡ some (neg_size enobufs, q)
  unfolding stream_fifo_push
  push-enobufs h = ground (arith, remaining_lem v)

  -- A message that `remaining` admits is copied inside the buffer.
  pub push_run : length msg ≤ remaining q → stream_fifo_push q msg ≡ some (length msg, pushed q msg)
  unfolding stream_fifo_push
  push_run room = ground (arith, remaining_lem v, straight_run, wrapped_run)

  pub pushed-IsValid : length msg ≤ q.buffer_len + (q.buffer_len - q.tail) → IsValid (pushed q msg)
  pushed-IsValid fit = ground (
    arith,
    length-take (q.buffer_len - q.tail) msg,
    length-drop (q.buffer_len - q.tail) msg,
    length-splice q.tail (take (q.buffer_len - q.tail) msg) q.buf,
    length-splice 0 (drop (q.buffer_len - q.tail) msg)
        (splice q.tail (take (q.buffer_len - q.tail) msg) q.buf),
    length-splice q.tail msg q.buf,
  )

  remaining_bound : remaining q ≤ q.buffer_len + (q.buffer_len - q.tail)
  remaining_bound = ground (arith, remaining_lem v)

  -- On a valid fifo `stream_fifo_push` copies only inside the buffer, for every message: one that
  -- is longer than `remaining` gets -ENOBUFS and changes nothing, any other gets its length as the
  -- result, and the fifo stays valid.
  pub push-IsValid :
      (stream_fifo_push q msg ≡ (
        if ltb (remaining q) (length msg)
        then some (neg_size enobufs, q)
        else some (length msg, pushed q msg)))
      × IsValid (if ltb (remaining q) (length msg) then q else pushed q msg)
  push-IsValid = elim (lt-or-le (remaining q) (length msg)) [
    | inl long ↦ rw (lt→ltb _ _ long) (push-enobufs long, v)
    | inr room ↦
        rw (le→ltb _ _ room) (push_run room, pushed-IsValid (le_trans room remaining_bound))
  ]
