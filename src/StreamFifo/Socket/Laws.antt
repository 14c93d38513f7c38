-- ===== src/StreamFifo/Socket/Laws.antt =====
-- What `stream_fifo_send_sock` takes from the contents.
use embedded_usbip.Prelude.{
  ℕ, ◌-◌, ◌*◌, ◌≤◌, ◌<◌, ◌≡◌, some, true, arith, List, ltb, ◌==◌, if◌then◌else◌, length, take, drop,
  length-take, length-drop, is_negative,
}
use embedded_usbip.StreamFifo.{StreamFifo, IsValid, contents}
use embedded_usbip.StreamFifo.Contents.{length-contents}
use embedded_usbip.StreamFifo.Pop.{popped, popped-drop}
use embedded_usbip.StreamFifo.Socket.{stream_fifo_send_sock}

-- The bytes that are offered to `send`: the first piece of the contents.
abbrev pub offered : StreamFifo → List ℕ
offered q =
    if ltb q.tail q.head
    then take (q.buffer_len - q.head) (drop q.head q.buf)
    else take (q.tail - q.head) (drop q.head q.buf)

module _ (send : List ℕ → ℕ) {q : StreamFifo} (v : IsValid q) where
  length-offered :
      length (offered q) ≡ (if ltb q.tail q.head then q.buffer_len - q.head else q.tail - q.head)
  length-offered = ground (
    arith,
    length-take (q.buffer_len - q.head) (drop q.head q.buf),
    length-take (q.tail - q.head) (drop q.head q.buf),
    length-drop q.head q.buf,
  )

  send_run :
      0 < send (offered q)
      → send (offered q) ≤ length (offered q)
      → (q.tail < q.head → send (offered q) < length (offered q))
      → stream_fifo_send_sock send q ≡ some (send (offered q), popped q (send (offered q)))
  unfolding stream_fifo_send_sock
  send_run some_sent bound partial = ground (arith, length-offered)

  -- When `send` accepts a part of what a valid fifo offers it (and, where the fifo goes round the
  -- end of its buffer, not all of the first piece), its count is returned, exactly the accepted
  -- bytes leave the front of the contents, and the fifo stays valid.
  pub send-drop :
      0 < send (offered q)
      → send (offered q) ≤ length (offered q)
      → (q.tail < q.head → send (offered q) < length (offered q))
      → let n = send (offered q) in
        (stream_fifo_send_sock send q ≡ some (n, popped q n))
        × IsValid (popped q n)
        × (contents (popped q n) ≡ drop n (contents q))
  send-drop some_sent bound partial =
      let inside : send (offered q) ≤ length (contents q) =
        ground (arith, length-offered, length-contents v) in
      let kept = popped-drop v (send (offered q)) inside in
      (send_run some_sent bound partial, kept.0, kept.1)

  -- When `send` fails, its negative result is returned, unless a valid fifo has its head at its
  -- tail, where 0 is returned without a call; the fifo is unchanged.
  pub send_failed :
      is_negative (send (offered q)) ≡ true
      → stream_fifo_send_sock send q ≡ some ((if q.head == q.tail then 0 else send (offered q)), q)
  unfolding stream_fifo_send_sock
  send_failed bad = ground (arith, length-offered)

  -- When `send` accepts the whole piece up to the end of the buffer, the head of a valid fifo that
  -- goes round moves to twice the length of the piece, not to the start of the buffer, and twice
  -- the count is returned.
  pub send_to_end_head :
      q.tail < q.head
      → q.head < q.buffer_len
      → send (offered q) ≡ length (offered q)
      → let piece = q.buffer_len - q.head in
        stream_fifo_send_sock send q ≡ some (2 * piece, record q { head = 2 * piece })
  unfolding stream_fifo_send_sock
  send_to_end_head round inside all = ground (arith, length-offered)
