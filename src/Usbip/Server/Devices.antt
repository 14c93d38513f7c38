-- ===== src/Usbip/Server/Devices.antt =====
-- What a client gets for its requests for the list of devices and for an import.
use embedded_usbip.Prelude.{
  ℕ, ◌+◌, ◌≤◌, ◌<◌, ◌≡◌, ◌≢◌, refl, ap, ◌∙◌, Bool, false, none, some, List, [], ◌∷◌, ◌++◌, ◌==◌,
  if◌then◌else◌, ltb, length, arith, lt-or-le, inl, inr, suc, neg_size,
}
use embedded_usbip.StreamFifo.{StreamFifo, IsValid, contents, stream_fifo_push, remaining, enobufs}
use embedded_usbip.StreamFifo.Push.{pushed, push-IsValid}
use embedded_usbip.StreamFifo.Append.{push-append}
use embedded_usbip.Conv.Bytes.{to_bytes-of_bytes, swapped-AllBytes}
use embedded_usbip.LinkedList.{World, Callback, load, linked_list_iter}
use embedded_usbip.LinkedList.Shape.{Cells, item_at, IsList, node_at}
use embedded_usbip.Usbip.Answers.{network4}
use embedded_usbip.Usbip.Server.{◌>>=◌, ◌>>◌, pure, UsbipClient, ServerWorld, Sockets, Action}
use embedded_usbip.Usbip.Server.Replies.{
  rep_devlist, rep_import, usbip_status_ok, hdr_common, hdr_rep_devlist, network32, fill_devlists,
  push_or_stop, usbip_resp_devlist,
}

-- The world with another fifo for a client.
abbrev pub with_fifo : (client : ℕ) → UsbipClient → StreamFifo → ServerWorld → ServerWorld
with_fifo client c q w = record w {
  ctx = record (w.ctx) {
    clients = λ a. if a == client then some (record c { out_fifo = q }) else w.ctx.clients a;
  };
}

-- Version 1.1.1, the code and the status, the high byte first.
abbrev pub reply_hdr : (op_code : ℕ) → List ℕ
reply_hdr op_code = 1 ∷ 0x11 ∷ 0 ∷ op_code ∷ 0 ∷ 0 ∷ 0 ∷ 0 ∷ []

devlist_hdr : hdr_common rep_devlist usbip_status_ok ≡ some (reply_hdr 5)
unfolding hdr_common
devlist_hdr = refl

pub import_hdr : hdr_common rep_import usbip_status_ok ≡ some (reply_hdr 3)
unfolding hdr_common
import_hdr = refl

network32_run : (v : ℕ) → network32 v ≡ some (network4 v)
unfolding network32
network32_run v = ap some (to_bytes-of_bytes (network4 v) (swapped-AllBytes 4 v))

devlist_run : (n : ℕ) → hdr_rep_devlist n ≡ some (reply_hdr 5 ++ network4 n)
unfolding hdr_rep_devlist
devlist_run n =
    ap (λ t. some (reply_hdr 5 ++ t)) (to_bytes-of_bytes (network4 n) (swapped-AllBytes 4 n))

-- An iteration whose callback faults at the first node.
pub iter_faults :
    {C : Type 0} (cb : Callback C) (xs : Cells) (n : ℕ) (w : World C)
    → IsList w.heap w.list xs
    → 0 < length xs
    → cb (item_at xs 0) 0 w ≡ none
    → linked_list_iter (suc n) cb w ≡ none
unfolding linked_list_iter
iter_faults cb xs n w is some_item e = ground (
  arith,
  e,
  is.size,
  is.first,
  node_at w.heap 0 xs 0 is.linked some_item,
  ap (load w.heap) (is.first (omega (arith, is.size))),
)

module _ (sockets : Sockets) (w : ServerWorld) (client i : ℕ) (c : UsbipClient)
    (in_memory : w.ctx.clients client ≡ some c) where
  pub push_or_stop_run :
      (msg : List ℕ) (rest : Action Bool) (n : ℕ) (q : StreamFifo)
      → stream_fifo_push c.out_fifo msg ≡ some (n, q)
      → n ≢ 0
      → push_or_stop sockets client i msg rest w ≡ rest (with_fifo client c q w)
  unfolding push_or_stop
  push_or_stop_run msg rest n q e ne =
      let nonzero : (n == 0) ≡ false = ground (arith, ne) in rw (in_memory, e, nonzero, ◌>>=◌) refl

  -- Whatever the fifo does with the header, it is not the result 0.
  pub header_pushed :
      (msg : List ℕ) (rest : Action Bool)
      → IsValid c.out_fifo
      → 0 < length msg
      → push_or_stop sockets client i msg rest w
        ≡ rest (
            with_fifo client c
              (if ltb (remaining c.out_fifo) (length msg)
                then c.out_fifo
                else pushed c.out_fifo msg)
              w)
  header_pushed msg rest v some_bytes = elim (lt-or-le (remaining c.out_fifo) (length msg)) [
    | inl long ↦
        push_or_stop_run msg rest (neg_size enobufs) _
          (ground (arith, (push-IsValid msg v).0, long)) (omega arith)
    | inr fits ↦
        push_or_stop_run msg rest (length msg) _ (ground (arith, (push-IsValid msg v).0, fits))
          (omega arith)
  ]

  -- What follows the header of a list of `n` devices.
  abbrev pub devlist_rest : (n : ℕ) → Action Bool
  devlist_rest n =
      if ltb 0 n then (do fill_devlists client w.ctx.vhci w.ctx.store; pure false) else pure false

  pub resp_devlist_run :
      usbip_resp_devlist sockets client i w
      ≡ push_or_stop sockets client i
          (reply_hdr 5 ++ network4 w.ctx.vhci.devices.size)
          (devlist_rest w.ctx.vhci.devices.size)
          w
  unfolding usbip_resp_devlist
  resp_devlist_run = rw (devlist_run w.ctx.vhci.devices.size, ◌>>=◌) refl

  -- With no device, and on a valid fifo with room for more than the 12 bytes of the reply and that
  -- admits them, `usbip_resp_devlist` returns 0, and the client's fifo then holds the reply behind what
  -- it held: version, code, status and the count 0.
  pub resp_devlist_empty :
      w.ctx.vhci.devices.size ≡ 0
      → IsValid c.out_fifo
      → 12 ≤ remaining c.out_fifo
      → length (contents c.out_fifo) + 12 < c.out_fifo.buffer_len
      → (q : StreamFifo) × (usbip_resp_devlist sockets client i w
          ≡ some (false, with_fifo client c q w))
        × IsValid q
        × (contents q ≡ contents c.out_fifo ++ (reply_hdr 5 ++ (0 ∷ 0 ∷ 0 ∷ 0 ∷ [])))
  resp_devlist_empty none_there v admitted room =
      let (taken, v', held) = push-append (reply_hdr 5 ++ (0 ∷ 0 ∷ 0 ∷ 0 ∷ [])) v room admitted in
      (
        pushed c.out_fifo (reply_hdr 5 ++ (0 ∷ 0 ∷ 0 ∷ 0 ∷ [])),
        resp_devlist_run
            ∙ ap (λ n. push_or_stop sockets client i (reply_hdr 5 ++ network4 n) (devlist_rest n) w)
                none_there
            ∙ push_or_stop_run (reply_hdr 5 ++ network4 0) (devlist_rest 0) 12
                (pushed c.out_fifo (reply_hdr 5 ++ network4 0)) taken (omega arith),
        v',
        held,
      )
