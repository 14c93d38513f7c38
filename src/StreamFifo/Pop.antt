-- ===== src/StreamFifo/Pop.antt =====
-- `stream_fifo_pop` takes bytes from the front of the contents.
use embedded_usbip.Prelude.{
  ℕ, ◌+◌, ◌-◌, ◌≤◌, ◌<◌, ◌^◌, ◌≡◌, some, arith, ◌++◌, ltb, if◌then◌else◌, inl, inr, length, take,
  drop, length-take, length-drop, get_elem?-take, get_elem?-drop, get_elem?-append, ext_get, min,
  get_elem?, lt-or-le, refl,
}
use embedded_usbip.StreamFifo.{
  StreamFifo, IsValid, contents, stream_fifo_pop, pop_wrapped, pop_straight,
}
use embedded_usbip.StreamFifo.Contents.{
  length-contents, length-contents_flat, length-contents_round, get_elem?-contents_flat,
  get_elem?-contents_round, stream_fifo_length-contents,
}

-- The fifo after `n` bytes have been popped.
abbrev pub popped : StreamFifo → ℕ → StreamFifo
popped q n = record q {
  head = if ltb q.buffer_len (q.head + n) then n - (q.buffer_len - q.head) else q.head + n;
}

module _ {q : StreamFifo} (v : IsValid q) where
  length-contents-lt : length (contents q) < 2 ^ 31
  length-contents-lt = ground (arith, length-contents v)

  popped-IsValid : (n : ℕ) → n ≤ length (contents q) → IsValid (popped q n)
  popped-IsValid n h = ground (arith, length-contents v)

  straight_run :
      (n : ℕ)
      → q.head + n ≤ q.buffer_len
      → pop_straight q n ≡ some (take n (drop q.head q.buf), q.head + n)
  unfolding pop_straight
  straight_run n fit = ground arith

  wrapped_run :
      (n : ℕ)
      → n ≤ length (contents q)
      → q.buffer_len < q.head + n
      → pop_wrapped q n
        ≡ some (
          take (q.buffer_len - q.head) (drop q.head q.buf)
              ++ take (n - (q.buffer_len - q.head)) (drop 0 q.buf),
          n - (q.buffer_len - q.head),
        )
  unfolding pop_wrapped
  wrapped_run n h over = ground (arith, length-contents v)

  contents-popped :
      (n : ℕ)
      → n ≤ length (contents q)
      → (i : ℕ) → get_elem? (contents (popped q n)) i ≡ get_elem? (drop n (contents q)) i
  contents-popped n h i = elim (lt-or-le q.tail q.head) [
    | inr flat ↦ ground (
      arith,
      get_elem?-drop n (contents q) i,
      length-contents_flat v flat,
      get_elem?-contents_flat v (n + i) flat,
      get_elem?-contents_flat (popped-IsValid n h) i,
    )
    | inl round ↦ ground (
      arith,
      get_elem?-drop n (contents q) i,
      length-contents_round v round,
      get_elem?-contents_round v (n + i) round,
      get_elem?-contents_flat (popped-IsValid n h) i,
      get_elem?-contents_round (popped-IsValid n h) i,
    )
  ]

  pub popped-drop :
      (n : ℕ)
      → n ≤ length (contents q)
      → IsValid (popped q n) × (contents (popped q n) ≡ drop n (contents q))
  popped-drop n h = (popped-IsValid n h, ext_get _ _ (contents-popped n h))

  straight_bytes :
      (n : ℕ)
      → n ≤ length (contents q)
      → q.head + n ≤ q.buffer_len
      → (i : ℕ) → get_elem? (take n (drop q.head q.buf)) i ≡ get_elem? (take n (contents q)) i
  straight_bytes n h fit i = elim (lt-or-le q.tail q.head) [
    | inr flat ↦ ground (
      arith,
      length-contents_flat v flat,
      get_elem?-take n (contents q) i,
      get_elem?-take n (drop q.head q.buf) i,
      get_elem?-drop q.head q.buf i,
      get_elem?-contents_flat v i flat,
    )
    | inl round ↦ ground (
      arith,
      length-contents_round v round,
      get_elem?-take n (contents q) i,
      get_elem?-take n (drop q.head q.buf) i,
      get_elem?-drop q.head q.buf i,
      get_elem?-contents_round v i round,
    )
  ]

  wrapped_bytes :
      (n : ℕ)
      → n ≤ length (contents q)
      → q.buffer_len < q.head + n
      → (i : ℕ)
      → get_elem?
          (take (q.buffer_len - q.head) (drop q.head q.buf)
            ++ take (n - (q.buffer_len - q.head)) (drop 0 q.buf))
          i
        ≡ get_elem? (take n (contents q)) i
  wrapped_bytes n h over i = elim (lt-or-le q.tail q.head) [
    | inr flat ↦ absurd (omega (arith, length-contents_flat v flat))
    | inl round ↦ ground (
      arith,
      length-contents_round v round,
      get_elem?-take n (contents q) i,
      length-take (q.buffer_len - q.head) (drop q.head q.buf),
      length-drop q.head q.buf,
      get_elem?-append (take (q.buffer_len - q.head) (drop q.head q.buf))
          (take (n - (q.buffer_len - q.head)) q.buf) i,
      get_elem?-take (q.buffer_len - q.head) (drop q.head q.buf) i,
      get_elem?-take (n - (q.buffer_len - q.head)) q.buf
          (i - length (take (q.buffer_len - q.head) (drop q.head q.buf))),
      get_elem?-drop q.head q.buf i,
      get_elem?-contents_round v i round,
    )
  ]

  pop_run :
      (n out_msg_len : ℕ)
      → n ≡ min (length (contents q)) out_msg_len
      → stream_fifo_pop q out_msg_len ≡ some (n, take n (contents q), popped q n)
  unfolding stream_fifo_pop
  pop_run n out_msg_len e = elim (lt-or-le q.buffer_len (q.head + n)) [
    | inl over ↦ ground (
      arith,
      stream_fifo_length-contents v,
      length-contents-lt,
      wrapped_run n (omega arith) over,
      ext_get _ _ (wrapped_bytes n (omega arith) over),
    )
    | inr fit ↦ ground (
      arith,
      stream_fifo_length-contents v,
      length-contents-lt,
      straight_run n fit,
      ext_get _ _ (straight_bytes n (omega arith) fit),
    )
  ]

  -- On a valid fifo `stream_fifo_pop` returns the oldest bytes, as many as were asked for or are
  -- there, takes exactly these from the contents, and keeps the fifo valid.
  pub pop-take :
      (out_msg_len : ℕ)
      → let n = min (length (contents q)) out_msg_len in
        (stream_fifo_pop q out_msg_len ≡ some (n, take n (contents q), popped q n))
        × IsValid (popped q n)
        × (contents (popped q n) ≡ drop n (contents q))
  pop-take out_msg_len =
      let n = min (length (contents q)) out_msg_len in
      (pop_run n out_msg_len refl, (popped-drop n (omega arith)).0, (popped-drop n (omega arith)).1)
