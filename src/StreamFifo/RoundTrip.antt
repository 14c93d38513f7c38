-- ===== src/StreamFifo/RoundTrip.antt =====
-- A fresh fifo, and a message through an empty one.
use embedded_usbip.Prelude.{
  ℕ, ◌≤◌, ◌<◌, ◌^◌, ◌≡◌, refl, some, arith, List, [], ◌∷◌, ◌++◌, length, take, min, get_elem?-take,
  get_elem?-none, ext_get, ◌∙◌, ap, ap₂, length-drop,
}
use embedded_usbip.StreamFifo.{
  StreamFifo, IsValid, contents, stream_fifo_init, ok, stream_fifo_push, stream_fifo_pop,
}
use embedded_usbip.StreamFifo.Contents.{length-contents, remaining_lem}
use embedded_usbip.StreamFifo.Push.{pushed, push_run, pushed-IsValid}
use embedded_usbip.StreamFifo.Append.{push-append}
use embedded_usbip.StreamFifo.Pop.{popped, pop-take, popped-drop}

-- `stream_fifo_init` on a buffer of `buf_len` bytes, if it succeeds, gives a valid fifo without
-- contents.
pub stream_fifo_init-IsValid :
    (b : List ℕ) (buf_len : ℕ) {q : StreamFifo}
    → length b ≡ buf_len
    → buf_len < 2 ^ 30
    → stream_fifo_init (some b) buf_len ≡ ok q
    → IsValid q × (length (contents q) ≡ 0)
unfolding stream_fifo_init
stream_fifo_init-IsValid b buf_len storage small e = grind arith

take_all : (n : ℕ) (xs : List ℕ) → length xs ≤ n → take n xs ≡ xs
take_all n xs h = ext_get _ _ (λ i. ground (arith, get_elem?-take n xs i, get_elem?-none xs i))

nil_of_length : (xs : List ℕ) → length xs ≡ 0 → xs ≡ []
nil_of_length [] e = refl
nil_of_length (x ∷ xs) e = absurd (omega arith)

-- A pop that asks for the whole contents.
pop_all :
    {q : StreamFifo}
    → IsValid q
    → (n : ℕ) (msg : List ℕ) → contents q ≡ msg
    → length msg ≤ n
    → (stream_fifo_pop q n ≡ some (length msg, msg, popped q (length msg)))
      × (length (contents (popped q (length msg))) ≡ 0)
pop_all {q} v n msg e enough = (
  (pop-take v n).0
      ∙ ap₂ (λ k xs. some (k, xs, popped q k)) count (ap₂ take count e ∙ take_all _ msg le_self),
  ap length (popped-drop v (length msg) (omega (arith, ap length e))).1
      ∙ omega (arith, ap length e, length-drop (length msg) (contents q)),
)
  where
    count : min (length (contents q)) n ≡ length msg
    count = omega (arith, ap length e)

    le_self : length msg ≤ length msg
    le_self = omega arith

module _ {q : StreamFifo} (msg : List ℕ) (v : IsValid q) where
  held : q.head ≡ q.tail → length msg < q.buffer_len → contents (pushed q msg) ≡ msg
  held empty short =
      (push-append msg v (omega (arith, none_held)) (ground (arith, remaining_lem v))).2
      ∙ ap (λ xs. xs ++ msg) (nil_of_length _ none_held)
    where
      none_held : length (contents q) ≡ 0
      none_held = ground (arith, length-contents v)

  -- What is pushed on a valid empty fifo, wherever its head stands, and is shorter than the buffer
  -- comes back whole from a pop that asks for as much or more, and the fifo is empty again.
  pub pop-push :
      (n : ℕ)
      → q.head ≡ q.tail
      → length msg < q.buffer_len
      → length msg ≤ n
      → (stream_fifo_push q msg ≡ some (length msg, pushed q msg))
        × (stream_fifo_pop (pushed q msg) n
            ≡ some (length msg, msg, popped (pushed q msg) (length msg)))
        × (length (contents (popped (pushed q msg) (length msg))) ≡ 0)
  pop-push n empty short enough =
      let popped_run = pop_all pushed_run.1 n msg (held empty short) enough in
      (pushed_run.0, popped_run.0, popped_run.1)
    where
      pushed_run :
          (stream_fifo_push q msg ≡ some (length msg, pushed q msg)) × IsValid (pushed q msg)
      pushed_run =
          (push_run msg v (ground (arith, remaining_lem v)), pushed-IsValid msg v (omega arith))
