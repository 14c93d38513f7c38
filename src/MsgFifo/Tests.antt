-- ===== src/MsgFifo/Tests.antt =====
-- A message FIFO of 40 bytes at the address 1000, and the theorem at it.
use embedded_usbip.Prelude.{ℕ, zero, suc, ◌≡◌, refl, some, List, [], ◌∷◌, arith}
use embedded_usbip.MsgFifo.{MsgFifo, msg_fifo_push, msg_fifo_pop}
use embedded_usbip.MsgFifo.RoundTrip.{msg_fifo_pop-msg_fifo_push}

abbrev zeros : ℕ → List ℕ
zeros zero = []
zeros (suc n) = 0 ∷ zeros n

abbrev fifo : MsgFifo
fifo = record { buf = zeros 40; first = 0; last = 0; head = 1000; start = 1000; buffer_len = 40 }

abbrev message : List ℕ
message = 7 ∷ 8 ∷ 9 ∷ []

msg_fifo_pop-msg_fifo_push_example :
    (r : MsgFifo) × (msg_fifo_push fifo message ≡ some (3, r))
    × (msg_fifo_pop r 5 ≡ some (3, message, record r { first = 0 }))
msg_fifo_pop-msg_fifo_push_example =
    msg_fifo_pop-msg_fifo_push fifo message (omega arith) (omega arith) refl (omega arith)
      (omega arith) refl 5 (omega arith)
