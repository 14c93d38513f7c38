-- ===== src/StreamFifo/Tests.antt =====
-- Runs of the stream FIFO, among them those of test/queue.c, and its theorems at these inputs.
use embedded_usbip.Prelude.{
  ℕ, ◌≤◌, ◌≡◌, refl, some, arith, List, [], ◌∷◌, ◌++◌, length, ltb, if◌then◌else◌, neg_size, splice,
}
use embedded_usbip.StreamFifo.{
  StreamFifo, IsValid, contents, stream_fifo_push, stream_fifo_pop, remaining, enobufs,
}
use embedded_usbip.StreamFifo.Push.{pushed, push-IsValid}
use embedded_usbip.StreamFifo.Append.{push-append}
use embedded_usbip.StreamFifo.Pop.{popped, pop-take}
use embedded_usbip.StreamFifo.RoundTrip.{pop-push}
use embedded_usbip.StreamFifo.Refusals.{push_refused_by_contents}
use embedded_usbip.StreamFifo.Socket.{stream_fifo_send_sock}
use embedded_usbip.StreamFifo.Socket.Laws.{send-drop}

abbrev storage : List ℕ
storage = 1 ∷ 2 ∷ 3 ∷ 4 ∷ 5 ∷ 6 ∷ 7 ∷ 8 ∷ []

abbrev fifo : (head tail : ℕ) → StreamFifo
fifo h t = record { buf = storage; head = h; tail = t; buffer_len = 8 }

fifo-IsValid : (h t : ℕ) → h ≤ 8 → t ≤ 8 → IsValid (fifo h t)
fifo-IsValid h t p q = omega arith

abbrev msg : List ℕ
msg = 10 ∷ 11 ∷ 12 ∷ []

abbrev storage20 : List ℕ
storage20 = storage ++ (storage ++ (1 ∷ 2 ∷ 3 ∷ 4 ∷ []))

abbrev fresh20 : StreamFifo
fresh20 = record { buf = storage20; head = 0; tail = 0; buffer_len = 20 }

-- Three bytes round the end of the buffer.
push_round_the_end :
    stream_fifo_push (fifo 6 6) msg
    ≡ some (
      3,
      record { buf = 12 ∷ 2 ∷ 3 ∷ 4 ∷ 5 ∷ 6 ∷ 10 ∷ 11 ∷ []; head = 6; tail = 1; buffer_len = 8 },
    )
unfolding stream_fifo_push splice
push_round_the_end = refl

pop-push_example :
    (stream_fifo_push (fifo 6 6) msg ≡ some (3, pushed (fifo 6 6) msg))
    × (stream_fifo_pop (pushed (fifo 6 6) msg) 5 ≡ some (3, msg, popped (pushed (fifo 6 6) msg) 3))
    × (length (contents (popped (pushed (fifo 6 6) msg) 3)) ≡ 0)
pop-push_example =
    pop-push msg (fifo-IsValid 6 6 (omega arith) (omega arith)) 5 refl (omega arith) (omega arith)

remaining-example : remaining (fifo 6 1) ≡ 13
unfolding remaining
remaining-example = refl

push-append_example :
    (stream_fifo_push (fifo 6 1) msg ≡ some (3, pushed (fifo 6 1) msg))
    × IsValid (pushed (fifo 6 1) msg)
    × (contents (pushed (fifo 6 1) msg) ≡ (7 ∷ 8 ∷ 1 ∷ []) ++ msg)
push-append_example =
    push-append msg (fifo-IsValid 6 1 (omega arith) (omega arith)) (omega arith)
      (omega (arith, remaining-example))

pop-take_example :
    (stream_fifo_pop (fifo 6 2) 3 ≡ some (3, 7 ∷ 8 ∷ 1 ∷ [], popped (fifo 6 2) 3))
    × IsValid (popped (fifo 6 2) 3)
    × (contents (popped (fifo 6 2) 3) ≡ 2 ∷ [])
pop-take_example = pop-take (fifo-IsValid 6 2 (omega arith) (omega arith)) 3

push-IsValid_example :
    (stream_fifo_push (fifo 6 1) msg ≡ (
      if ltb (remaining (fifo 6 1)) 3
      then some (neg_size enobufs, fifo 6 1)
      else some (3, pushed (fifo 6 1) msg)))
    × IsValid (if ltb (remaining (fifo 6 1)) 3 then fifo 6 1 else pushed (fifo 6 1) msg)
push-IsValid_example = push-IsValid msg (fifo-IsValid 6 1 (omega arith) (omega arith))

-- Two bytes are held, six are free, and three are refused.
push_refused_by_contents_example :
    stream_fifo_push (fifo 0 2) msg ≡ some (neg_size enobufs, fifo 0 2)
push_refused_by_contents_example =
    push_refused_by_contents msg (fifo-IsValid 0 2 (omega arith) (omega arith)) (omega arith)
      (omega arith)

-- Sockets that take everything, one byte, and nothing (with the pattern of -1).
abbrev takes_all : List ℕ → ℕ
takes_all bytes = length bytes

abbrev takes_one : List ℕ → ℕ
takes_one bytes = 1

abbrev fails : List ℕ → ℕ
fails bytes = 0xffff_ffff

send-drop_example :
    (stream_fifo_send_sock takes_one (fifo 6 2) ≡ some (1, popped (fifo 6 2) 1))
    × IsValid (popped (fifo 6 2) 1)
    × (contents (popped (fifo 6 2) 1) ≡ 8 ∷ 1 ∷ 2 ∷ [])
send-drop_example =
    send-drop takes_one (fifo-IsValid 6 2 (omega arith) (omega arith)) (omega arith) (omega arith)
      (omega arith)
