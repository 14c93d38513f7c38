-- ===== src/StreamFifo/Socket.antt =====
-- `stream_fifo_send_sock`. `send` of the socket library is a parameter: the bytes that it is given
-- to the `int` that it returns.
pub mod Laws
use embedded_usbip.Prelude.{
  ℕ, ◌+◌, ◌-◌, Option, none, some, Bool, List, ltb, leb, ◌==◌, not, ◌&&◌, if◌then◌else◌, copy_out,
  sub_size, to_int, of_int, is_negative,
}
use embedded_usbip.StreamFifo.{StreamFifo}

-- `bytes > 0` on an `int`.
abbrev pub is_positive : ℕ → Bool
is_positive n = not (is_negative n) && not (n == 0)

module _ (send : List ℕ → ℕ) where
  -- The bytes at the end of the buffer go out; at the end, `bytes -= queue->head - end`.
  unfoldable pub send_to_end : StreamFifo → List ℕ → ℕ × StreamFifo
  send_to_end q data_out =
      let bytes = send data_out in
      if is_positive bytes
      then (if leb q.buffer_len (q.head + bytes)
          then (let moved = to_int (sub_size (of_int bytes) (sub_size q.head q.buffer_len)) in
              (moved, record q { head = of_int moved }))
          else (bytes, record q { head = q.head + bytes }))
      else (bytes, q)

  unfoldable pub send_piece : StreamFifo → List ℕ → ℕ × StreamFifo
  send_piece q data_out =
      let bytes = send data_out in
      if is_positive bytes then (bytes, record q { head = q.head + bytes }) else (bytes, q)

  unfoldable pub stream_fifo_send_sock : StreamFifo → Option (ℕ × StreamFifo)
  unfolding send_to_end send_piece
  stream_fifo_send_sock q =
      if ltb q.tail q.head
      then elim (copy_out q.buf q.head (of_int (to_int (sub_size q.buffer_len q.head)))) [
        | none ↦ none
        | some piece ↦ some (send_to_end q piece)
      ]
      else if ltb q.head q.tail
      then elim (copy_out q.buf q.head (sub_size q.tail q.head)) [
        | none ↦ none
        | some piece ↦ some (send_piece q piece)
      ]
      else some (0, q)
