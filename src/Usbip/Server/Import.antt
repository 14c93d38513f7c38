-- ===== src/Usbip/Server/Import.antt =====
-- What a client gets for the import of a device.
use embedded_usbip.Prelude.{
  ℕ, ◌+◌, ◌≤◌, ◌<◌, ◌≡◌, ◌≢◌, refl, ap, ◌∙◌, true, false, some, List, [], ◌∷◌, ◌++◌, ◌==◌,
  if◌then◌else◌, length, arith, splice, replicate,
}
use embedded_usbip.StreamFifo.{StreamFifo, IsValid, contents, stream_fifo_push}
use embedded_usbip.StreamFifo.Contents.{remaining_lem}
use embedded_usbip.StreamFifo.Push.{pushed}
use embedded_usbip.StreamFifo.Append.{push-append}
use embedded_usbip.UsbDev.{UsbDev}
use embedded_usbip.Vhci.Devices.{device_at, vhci_find_device}
use embedded_usbip.Usbip.{usb_dev_to_buf}
use embedded_usbip.Usbip.Export.{usb_dev_to_buf_silent}
use embedded_usbip.Usbip.Server.{◌>>=◌, pure, UsbipClient, ServerWorld, Sockets, Answer, recv}
use embedded_usbip.Usbip.Server.Settles.{called}
use embedded_usbip.Usbip.Server.Replies.{
  found_sends, import_found, import_named, text_at_1, usbip_handle_import,
}
use embedded_usbip.Usbip.Server.Devices.{with_fifo, reply_hdr, import_hdr, push_or_stop_run}

-- The bus id that is asked for: what came, in front of zeros.
abbrev pub busid_of : List ℕ → List ℕ
busid_of bytes = splice 0 bytes (replicate 32 0)

module _ (sockets : Sockets) (w : ServerWorld) (client i : ℕ) (c : UsbipClient)
    (in_memory : w.ctx.clients client ≡ some c) where
  abbrev import_answer : Answer
  import_answer = sockets (recv c.sock 32 ∷ w.ctx.calls)

  abbrev pub import_asked : ServerWorld
  import_asked = called (recv c.sock 32) w

  named :
      (n : ℕ)
      → import_answer.value ≡ some n
      → 0 < length import_answer.bytes
      → length import_answer.bytes ≤ 32
      → usbip_handle_import sockets client i w
        ≡ import_named sockets client i (busid_of import_answer.bytes) import_asked
  unfolding usbip_handle_import
  named n value some_bytes few = ground (arith, in_memory, value, some_bytes, few)

  named_run :
      (w' : ServerWorld) (busid : List ℕ) (vdev : ℕ)
      → vhci_find_device (text_at_1 busid) w'.ctx.store w'.ctx.vhci 1 ≡ some vdev
      → import_named sockets client i busid w'
        ≡ (if vdev == 0 then pure false w' else import_found sockets client i vdev w')
  unfolding import_named
  named_run w' busid vdev found = ground (arith, found)

  -- The fifo behind the header of the reply.
  abbrev replied : StreamFifo
  replied = pushed c.out_fifo (reply_hdr 3)

  found_rest :
      (dev : UsbDev) (vdev : ℕ) (q : StreamFifo) (w' : ServerWorld)
      → w'.ctx.clients client ≡ some (record c { out_fifo = q })
      → device_at w'.ctx.store vdev ≡ some dev
      → usb_dev_to_buf q dev ≡ some (true, q)
      → found_sends sockets client i vdev w'
        ≡ some (false, with_fifo client (record c { out_fifo = q }) q w')
  unfolding found_sends
  found_rest dev vdev q w' there device sent = rw (there, device, sent, ◌>>=◌) refl

  found_run :
      (vdev : ℕ)
      → stream_fifo_push c.out_fifo (reply_hdr 3) ≡ some (8, replied)
      → import_found sockets client i vdev import_asked
        ≡ found_sends sockets client i vdev (with_fifo client c replied import_asked)
  unfolding import_found
  found_run vdev taken =
      rw (import_hdr, ◌>>=◌)
        (push_or_stop_run sockets import_asked client i c in_memory (reply_hdr 3)
          (found_sends sockets client i vdev) 8 replied taken (omega arith))

  module _ (v : IsValid c.out_fifo) (empty : c.out_fifo.head ≡ c.out_fifo.tail)
      (straight : c.out_fifo.tail + 8 ≤ c.out_fifo.buffer_len)
      (room : 8 < c.out_fifo.buffer_len) where
    no_contents : contents c.out_fifo ≡ []
    no_contents = ground (arith, empty)

    header_taken :
        (stream_fifo_push c.out_fifo (reply_hdr 3) ≡ some (8, replied))
        × IsValid replied
        × (contents replied ≡ contents c.out_fifo ++ reply_hdr 3)
    header_taken =
        push-append (reply_hdr 3) v (ground (arith, room, ap length no_contents))
          (ground (arith, remaining_lem v, empty, room))

    header_flat : replied.head < replied.tail
    header_flat = ground (arith, empty, straight)

    -- The client's fifo is empty, and has room for more than 8 bytes, 8 of them before the end of its
    -- buffer. A bus id of 1 to 32 bytes comes that `vhci_find_device` knows, and the device has a path
    -- of 256 and a bus id of 32 bytes. Then `usbip_handle_import` returns 0, and the client's fifo holds
    -- the header with the status OK and nothing of the device. The other clients and the list are the
    -- same.
    pub import_header_only :
        (n vdev : ℕ) (dev : UsbDev)
        → import_answer.value ≡ some n
        → 0 < length import_answer.bytes
        → length import_answer.bytes ≤ 32
        → vhci_find_device (text_at_1 (busid_of import_answer.bytes)) w.ctx.store w.ctx.vhci 1
          ≡ some vdev
        → vdev ≢ 0
        → device_at w.ctx.store vdev ≡ some dev
        → length dev.path ≡ 256
        → length dev.busid ≡ 32
        → (w' : ServerWorld) × (q : StreamFifo) × (usbip_handle_import sockets client i w
            ≡ some (false, w'))
          × (w'.ctx.clients client ≡ some (record c { out_fifo = q }))
          × IsValid q
          × (contents q ≡ reply_hdr 3)
          × ((a : ℕ) → a ≢ client → w'.ctx.clients a ≡ w.ctx.clients a)
          × (w'.list ≡ w.list)
    import_header_only n vdev dev value some_bytes few found ne device path busid = (
      with_fifo client (record c { out_fifo = replied }) replied
          (with_fifo client c replied import_asked),
      replied,
      named n value some_bytes few
          ∙ named_run import_asked (busid_of import_answer.bytes) vdev found
          ∙ ground (
            arith,
            ne,
            found_run vdev header_taken.0,
            found_rest dev vdev replied (with_fifo client c replied import_asked) (ground arith)
                device
                (usb_dev_to_buf_silent replied dev header_taken.1 path busid header_flat
                  (ground (arith, ap length header_taken.2, ap length no_contents))),
          ),
      ground arith,
      header_taken.1,
      header_taken.2 ∙ ap (λ l. l ++ reply_hdr 3) no_contents,
      λ a other. ground (arith, other),
      refl,
    )

  -- A bus id of 1 to 32 bytes that `vhci_find_device` does not know: `usbip_handle_import` returns 0 and
  -- changes nothing, so that no reply is sent.
  pub import_unknown :
      (n : ℕ)
      → import_answer.value ≡ some n
      → 0 < length import_answer.bytes
      → length import_answer.bytes ≤ 32
      → vhci_find_device (text_at_1 (busid_of import_answer.bytes)) w.ctx.store w.ctx.vhci 1
        ≡ some 0
      → usbip_handle_import sockets client i w ≡ some (false, import_asked)
  import_unknown n value some_bytes few found =
      named n value some_bytes few ∙ named_run import_asked (busid_of import_answer.bytes) 0 found
