-- ===== src/StreamFifo/Append.antt =====
-- A push that fits appends its message to the contents.
use embedded_usbip.Prelude.{
  ℕ, ◌+◌, ◌-◌, ◌≤◌, ◌<◌, ◌≡◌, some, arith, List, ◌++◌, ltb, if◌then◌else◌, inl, inr, length, take,
  drop, length-take, length-drop, get_elem?-take, get_elem?-drop, get_elem?-append, ext_get, splice,
  length-splice, get_elem?-splice, get_elem?, get_elem?-none, lt-or-le, lt→ltb, le→ltb,
}
use embedded_usbip.StreamFifo.{StreamFifo, IsValid, contents, stream_fifo_push, remaining}
use embedded_usbip.StreamFifo.Contents.{
  length-contents_flat, length-contents_round, get_elem?-contents_flat, get_elem?-contents_round,
}
use embedded_usbip.StreamFifo.Push.{pushed, wrapped, straight, push_run, pushed-IsValid}

module _ {q : StreamFifo} (msg : List ℕ) (v : IsValid q) where
  straight-IsValid : q.tail + length msg ≤ q.buffer_len → IsValid (straight q msg)
  straight-IsValid fit = ground (arith, length-splice q.tail msg q.buf)

  straight_flat :
      q.tail + length msg ≤ q.buffer_len
      → q.head ≤ q.tail
      → (i : ℕ) → get_elem? (contents (straight q msg)) i ≡ get_elem? (contents q ++ msg) i
  straight_flat fit h i = ground (
    arith,
    length-contents_flat v h,
    get_elem?-append (contents q) msg i,
    get_elem?-contents_flat v i h,
    get_elem?-contents_flat (straight-IsValid fit) i (omega arith),
    get_elem?-none msg (i - length (contents q)),
    get_elem?-splice q.tail msg q.buf (q.head + i),
  )

  straight_round :
      q.tail + length msg < q.head
      → (i : ℕ) → get_elem? (contents (straight q msg)) i ≡ get_elem? (contents q ++ msg) i
  straight_round fit i = ground (
    arith,
    length-contents_round v (omega arith),
    get_elem?-append (contents q) msg i,
    get_elem?-contents_round v i (omega arith),
    get_elem?-contents_round (straight-IsValid (omega arith)) i fit,
    get_elem?-none msg (i - length (contents q)),
    get_elem?-splice q.tail msg q.buf (q.head + i),
    get_elem?-splice q.tail msg q.buf (q.head + i - q.buffer_len),
  )

  module _ (short : length msg ≤ q.buffer_len) (over : q.buffer_len < q.tail + length msg) where
    wrapped-IsValid : IsValid (wrapped q msg)
    wrapped-IsValid = ground (arith, pushed-IsValid msg v (omega arith))

    get_elem?-wrapped :
        (j : ℕ)
        → j < q.buffer_len
        → get_elem? (wrapped q msg).buf j ≡ (
            if ltb j (length msg - (q.buffer_len - q.tail))
            then get_elem? msg (q.buffer_len - q.tail + j)
            else if ltb j q.tail
            then get_elem? q.buf j
            else get_elem? msg (j - q.tail))
    get_elem?-wrapped j h = ground (
      arith,
      length-take (q.buffer_len - q.tail) msg,
      length-drop (q.buffer_len - q.tail) msg,
      get_elem?-take (q.buffer_len - q.tail) msg (j - q.tail),
      get_elem?-drop (q.buffer_len - q.tail) msg j,
      length-splice q.tail (take (q.buffer_len - q.tail) msg) q.buf,
      get_elem?-splice q.tail (take (q.buffer_len - q.tail) msg) q.buf j,
      get_elem?-splice 0 (drop (q.buffer_len - q.tail) msg)
          (splice q.tail (take (q.buffer_len - q.tail) msg) q.buf) j,
    )

    wrapped_flat :
        q.head ≤ q.tail
        → length msg - (q.buffer_len - q.tail) < q.head
        → (i : ℕ) → get_elem? (contents (wrapped q msg)) i ≡ get_elem? (contents q ++ msg) i
    wrapped_flat h room i = ground (
      arith,
      length-contents_flat v h,
      get_elem?-append (contents q) msg i,
      get_elem?-contents_flat v i h,
      get_elem?-contents_round wrapped-IsValid i room,
      get_elem?-none msg (i - length (contents q)),
      get_elem?-wrapped (q.head + i),
      get_elem?-wrapped (q.head + i - q.buffer_len),
    )

  pushed_append :
      length (contents q) + length msg < q.buffer_len → contents (pushed q msg) ≡ contents q ++ msg
  pushed_append room = elim (lt-or-le q.buffer_len (q.tail + length msg)) [
    | inl over ↦ elim (lt-or-le q.tail q.head) [
      | inl round ↦ absurd (omega (arith, length-contents_round v round))
      | inr flat ↦ rw (lt→ltb _ _ over) (
          ext_get _ _ (
            wrapped_flat (omega (arith, length-contents_flat v flat)) over flat
              (omega (arith, length-contents_flat v flat))))
    ]
    | inr fit ↦ elim (lt-or-le q.tail q.head) [
      | inl round ↦
          rw (le→ltb _ _ fit)
            (ext_get _ _ (straight_round (omega (arith, length-contents_round v round))))
      | inr flat ↦ rw (le→ltb _ _ fit) (ext_get _ _ (straight_flat fit flat))
    ]
  ]

  -- On a valid fifo a message that fits beside the contents and that `remaining` admits is taken
  -- whole: the result is its length, the fifo stays valid, and the message stands behind the old
  -- contents.
  pub push-append :
      length (contents q) + length msg < q.buffer_len
      → length msg ≤ remaining q
      → (stream_fifo_push q msg ≡ some (length msg, pushed q msg))
        × IsValid (pushed q msg)
        × (contents (pushed q msg) ≡ contents q ++ msg)
  push-append room fits =
      (push_run msg v fits, pushed-IsValid msg v (omega arith), pushed_append room)
