-- ===== src/StreamFifo/Refusals.antt =====
-- What `stream_fifo_push` refuses, what it loses, and where it leaves the buffer. `remaining` is
-- the number of stored bytes, not of free ones, while the fifo does not go round the end.
use embedded_usbip.Prelude.{ℕ, ◌+◌, ◌-◌, ◌≤◌, ◌<◌, ◌≡◌, some, arith, List, length, neg_size}
use embedded_usbip.StreamFifo.{
  StreamFifo, IsValid, contents, stream_fifo_push, enobufs, stream_fifo_length,
}
use embedded_usbip.StreamFifo.Contents.{
  length-contents, length-contents_flat, length-contents_round, remaining_lem,
  stream_fifo_length-contents,
}
use embedded_usbip.StreamFifo.Push.{pushed, push_run, push-enobufs, pushed-IsValid}

module _ {q : StreamFifo} (msg : List ℕ) (v : IsValid q) where
  -- A valid fifo that holds bytes in one piece refuses every message longer than what it holds,
  -- however much room is left, and changes nothing.
  pub push_refused_by_contents :
      q.head < q.tail
      → length (contents q) < length msg
      → stream_fifo_push q msg ≡ some (neg_size enobufs, q)
  push_refused_by_contents h long =
      push-enobufs msg v (ground (arith, remaining_lem v, length-contents_flat v))

  -- A valid fifo that goes round the end of its buffer takes a message of `head - tail` bytes and
  -- more, up to `buffer_len + head - tail`, and reports it as pushed, and then holds fewer bytes
  -- than the old contents and the message have together.
  pub push_overruns :
      q.tail < q.head
      → q.head - q.tail ≤ length msg
      → length msg ≤ q.buffer_len + (q.head - q.tail)
      → (stream_fifo_push q msg ≡ some (length msg, pushed q msg))
        × (length (contents (pushed q msg)) < length (contents q) + length msg)
  push_overruns h full admitted =
      let valid = pushed-IsValid msg v (omega arith) in
      (
        push_run msg v (ground (arith, remaining_lem v)),
        ground (arith, length-contents valid, length-contents_round v h),
      )

  -- A message as long as the buffer, pushed on a valid empty fifo whose head is not at the start,
  -- is reported as taken, and the fifo is empty behind it.
  pub push_full_is_lost :
      q.head ≡ q.tail
      → 0 < q.head
      → length msg ≡ q.buffer_len
      → (stream_fifo_push q msg ≡ some (length msg, pushed q msg))
        × (stream_fifo_length (pushed q msg) ≡ 0)
  push_full_is_lost e h full =
      let valid = pushed-IsValid msg v (omega arith) in
      (
        push_run msg v (ground (arith, remaining_lem v)),
        ground (arith, stream_fifo_length-contents valid, length-contents valid),
      )
