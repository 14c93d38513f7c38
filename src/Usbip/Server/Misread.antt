-- ===== src/Usbip/Server/Misread.antt =====
-- The list of devices where there is a device: `fill_devlist` takes the first bytes of the client's
-- buffer for a fifo.
use embedded_usbip.Prelude.{
  ◌==◌, subst, sym, ◌+◌, false, leb, length-append, replicate, splice, drop, ℕ, ◌≤◌, ◌<◌, ◌≡◌, refl,
  ap, ◌∙◌, true, none, some, Option-cases, List, [], ◌++◌, if◌then◌else◌, ltb, length, take,
  length-take, length-drop, length-splice, sub_size, to_int, copy_out, of_int, arith, inl, inr,
}
use embedded_usbip.StreamFifo.{
  StreamFifo, IsValid, remaining, push_parts, push_wrapped, push_straight, stream_fifo_push,
}
use embedded_usbip.StreamFifo.Contents.{remaining_lem}
use embedded_usbip.StreamFifo.Push.{pushed}
use embedded_usbip.LinkedList.{World}
use embedded_usbip.LinkedList.Shape.{Cells, item_at, IsList}
use embedded_usbip.UsbDev.{UsbDev}
use embedded_usbip.Vhci.{VhciHandle, Store}
use embedded_usbip.Vhci.Devices.{device_at, vhci_iter_devices, vhci_iter_internal, world}
use embedded_usbip.Usbip.{push_or_fail, usb_dev_to_buf}
use embedded_usbip.Usbip.Server.{◌>>=◌, ◌>>◌, UsbipClient, ServerWorld, Sockets}
use embedded_usbip.Usbip.Server.Devices.{
  iter_faults, with_fifo, reply_hdr, header_pushed, resp_devlist_run, devlist_rest,
}
use embedded_usbip.Usbip.Answers.{network4}
use embedded_usbip.Usbip.Server.Replies.{fifo_at, fill_devlist, fill_devlists, usbip_resp_devlist}

-- A copy to no memory, in one piece and in two.
parts_nowhere :
    (q : StreamFifo) (msg : List ℕ) (n : ℕ)
    → q.buf ≡ []
    → 0 < length msg
    → push_parts q msg n ≡ none
unfolding push_parts
parts_nowhere q msg n nowhere some_bytes = ground (
  arith,
  ap length nowhere,
  some_bytes,
  length-take n msg,
  length-drop n msg,
  length-splice q.tail (take n msg) q.buf,
)

straight_nowhere :
    (q : StreamFifo) (msg : List ℕ) → q.buf ≡ [] → 0 < length msg → push_straight q msg ≡ none
unfolding push_straight
straight_nowhere q msg nowhere some_bytes = ground (arith, ap length nowhere, some_bytes)

-- What the misread fifo admits is copied to no memory of the program.
push_nowhere :
    (q : StreamFifo) (msg : List ℕ)
    → q.buf ≡ []
    → 0 < length msg
    → length msg ≤ of_int (remaining q)
    → stream_fifo_push q msg ≡ none
unfolding stream_fifo_push push_wrapped
push_nowhere q msg nowhere some_bytes admitted = ground (
  arith,
  admitted,
  straight_nowhere q msg nowhere some_bytes,
  parts_nowhere q msg (of_int (to_int (sub_size q.buffer_len q.tail))) nowhere some_bytes,
)

copied_length : (l : List ℕ) (n : ℕ) (p : List ℕ) → copy_out l 0 n ≡ some p → length p ≡ n
copied_length l n p e = ground (arith, e, length-take n l)

-- The 256 bytes of the path are what is copied first.
to_buf_faults :
    (q : StreamFifo) (dev : UsbDev)
    → q.buf ≡ []
    → 256 ≤ of_int (remaining q)
    → usb_dev_to_buf q dev ≡ none
unfolding usb_dev_to_buf push_or_fail
to_buf_faults q dev nowhere admitted = elim (Option-cases (copy_out dev.path 0 256)) [
  | inl e ↦ rw e refl
  | inr (path, e) ↦
      let copied : length path ≡ 256 = copied_length dev.path 256 path e in
      rw
        (
          e,
          push_or_fail,
          push_nowhere q path nowhere (omega (arith, copied)) (omega (arith, copied, admitted)),
        )
        refl
]

fill_devlist_faults :
    (st : Store) (vdev : ℕ) (w : World StreamFifo)
    → w.ctx.buf ≡ []
    → 256 ≤ of_int (remaining w.ctx)
    → fill_devlist st vdev w ≡ none
unfolding fill_devlist
fill_devlist_faults st vdev w nowhere admitted = elim (Option-cases (device_at st vdev)) [
  | inl e ↦ rw (fill_devlist, e) refl
  | inr (dev, e) ↦ rw (fill_devlist, e, to_buf_faults w.ctx dev nowhere admitted) refl
]

-- The iteration calls `fill_devlist` for the first device.
iter_devices_faults :
    (st : Store) (h : VhciHandle) (xs : Cells) (m : StreamFifo)
    → IsList st.heap h.devices xs
    → 0 < length xs
    → m.buf ≡ []
    → 256 ≤ of_int (remaining m)
    → vhci_iter_devices (fill_devlist st) st h m ≡ none
unfolding vhci_iter_devices vhci_iter_internal
iter_devices_faults st h xs m is some_device nowhere admitted =
    iter_faults (vhci_iter_internal (fill_devlist st)) xs h.devices.size (world st h m) is
      some_device
      (rw
        (vhci_iter_internal, fill_devlist_faults st (item_at xs 0) (world st h m) nowhere admitted)
        refl)

fifo_at_nowhere : (b : List ℕ) (m : StreamFifo) → fifo_at b ≡ some m → m.buf ≡ []
unfolding fifo_at
fifo_at_nowhere b m e = ground (arith, e)

-- With a device, and a client's fifo whose buffer begins, behind the push of the header, with a fifo
-- that admits the 256 bytes of a path, `fill_devlists` faults.
fill_devlists_faults :
    (client : ℕ) (c : UsbipClient) (h : VhciHandle) (st : Store) (xs : Cells) (m : StreamFifo)
    (w : ServerWorld)
    → w.ctx.clients client ≡ some c
    → fifo_at c.out_fifo.buf ≡ some m
    → 256 ≤ of_int (remaining m)
    → IsList st.heap h.devices xs
    → 0 < length xs
    → fill_devlists client h st w ≡ none
unfolding fill_devlists
fill_devlists_faults client c h st xs m w in_memory read admitted is some_device =
    let none_left =
      iter_devices_faults st h xs m is some_device (fifo_at_nowhere c.out_fifo.buf m read)
        admitted in
    rw (in_memory, ◌>>=◌, read, none_left) refl

-- The client's fifo behind the header of the list of `n` devices.
abbrev pub behind_header : StreamFifo → (n : ℕ) → StreamFifo
behind_header q n =
    if ltb (remaining q) (length (reply_hdr 5 ++ network4 n))
    then q
    else pushed q (reply_hdr 5 ++ network4 n)

-- The buffer behind the push of the header at its start, where the bytes 12 to 31 are 0.
header_first :
    (q : StreamFifo) (back : List ℕ)
    → IsValid q
    → q.head ≡ 0
    → q.tail ≡ 0
    → drop 12 q.buf ≡ replicate 20 0 ++ back
    → (behind_header q 1).buf ≡ reply_hdr 5 ++ (network4 1 ++ (replicate 20 0 ++ back))
unfolding splice
header_first q back v head tail zeros =
    let long : 32 ≤ q.buffer_len = omega (
      arith,
      ap length zeros,
      length-drop 12 q.buf,
      length-append (replicate 20 0) back,
      v.storage,
    ) in
    let room : remaining q ≡ q.buffer_len = ground (arith, remaining_lem v, head, tail) in
    let admitted : ltb (remaining q) 12 ≡ false = ground (arith, room, long) in
    let straight_on : ltb q.buffer_len (q.tail + 12) ≡ false = ground (arith, tail, long) in
    rw (admitted, straight_on, tail, zeros) refl

-- The bytes of the header as a fifo: the head is 0x01000000, the tail is NULL.
abbrev pub header_as_fifo : StreamFifo
header_as_fifo = record {
  buf = [];
  head = sub_size 0x01000000 0x05001101;
  tail = sub_size 0 0x05001101;
  buffer_len = 0;
}

header_read :
    (back : List ℕ)
    → fifo_at (reply_hdr 5 ++ (network4 1 ++ (replicate 20 0 ++ back))) ≡ some header_as_fifo
unfolding fifo_at
header_read back =
    let fits : leb 32 (length (reply_hdr 5 ++ (network4 1 ++ (replicate 20 0 ++ back)))) ≡ true =
      ground arith in
    rw (fifo_at, fits) refl

with_fifo_at :
    (client : ℕ) (c : UsbipClient) (q : StreamFifo) (w : ServerWorld)
    → (with_fifo client c q w).ctx.clients client ≡ some (record c { out_fifo = q })
with_fifo_at client c q w = let here : (client == client) ≡ true = ground arith in rw here refl

module _ (sockets : Sockets) (w : ServerWorld) (client i : ℕ) (c : UsbipClient)
    (in_memory : w.ctx.clients client ≡ some c) where
  -- With a device, and on a valid fifo whose buffer, behind the push of the header, begins with a
  -- fifo that admits the 256 bytes of a path, `usbip_resp_devlist` faults.
  pub resp_devlist_faults :
      (xs : Cells) (m : StreamFifo)
      → IsValid c.out_fifo
      → fifo_at (behind_header c.out_fifo w.ctx.vhci.devices.size).buf ≡ some m
      → 256 ≤ of_int (remaining m)
      → IsList w.ctx.store.heap w.ctx.vhci.devices xs
      → 0 < length xs
      → usbip_resp_devlist sockets client i w ≡ none
  resp_devlist_faults xs m v read admitted is some_device =
      let n = w.ctx.vhci.devices.size in
      let q = behind_header c.out_fifo n in
      let counted : ltb 0 n ≡ true = ground (arith, is.size, some_device) in
      let faults =
        fill_devlists_faults client (record c { out_fifo = q }) w.ctx.vhci w.ctx.store xs m
          (with_fifo client c q w) (with_fifo_at client c q w) read admitted is some_device in
      resp_devlist_run sockets w client i c in_memory
      ∙ header_pushed sockets w client i c in_memory (reply_hdr 5 ++ network4 n)
          (devlist_rest sockets w client i c in_memory n) v (omega arith)
      ∙ rw (counted, ◌>>=◌, ◌>>◌, faults) refl

  -- With one device, and on a valid fifo whose head and tail are at the start of its buffer and whose
  -- bytes 12 to 31 are 0: the path is copied to NULL, a fault.
  pub first_devlist_faults :
      (xs : Cells) (back : List ℕ)
      → IsValid c.out_fifo
      → c.out_fifo.head ≡ 0
      → c.out_fifo.tail ≡ 0
      → drop 12 c.out_fifo.buf ≡ replicate 20 0 ++ back
      → IsList w.ctx.store.heap w.ctx.vhci.devices xs
      → length xs ≡ 1
      → usbip_resp_devlist sockets client i w ≡ none
  unfolding remaining
  first_devlist_faults xs back v head tail zeros is one =
      let size : w.ctx.vhci.devices.size ≡ 1 = is.size ∙ one in
      resp_devlist_faults xs header_as_fifo v
        (subst (λ k. fifo_at (behind_header c.out_fifo k).buf ≡ some header_as_fifo) (sym size)
          (ap fifo_at (header_first c.out_fifo back v head tail zeros) ∙ header_read back))
        (omega arith) is (omega (arith, one))
