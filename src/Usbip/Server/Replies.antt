-- ===== src/Usbip/Server/Replies.antt =====
-- The two requests of src/usbip.c about devices: `usbip_resp_devlist` with `fill_devlist`, and
-- `usbip_handle_import`.
use embedded_usbip.Prelude.{
  ℕ, Bool, true, false, Option, none, some, List, [], ◌++◌, ◌==◌, ltb, if◌then◌else◌, length,
  replicate, copy_in, copy_out, take, drop, sub_size,
}
use embedded_usbip.StreamFifo.{StreamFifo, stream_fifo_push}
use embedded_usbip.Conv.{i_bswap16, i_bswap32, to_bytes, of_bytes}
use embedded_usbip.LinkedList.{World}
use embedded_usbip.Vhci.{VhciHandle, Store}
use embedded_usbip.Vhci.Devices.{device_at, vhci_iter_devices, vhci_find_device}
use embedded_usbip.Usbip.{usb_dev_to_buf, usb_dev_if_to_buf}
use embedded_usbip.Usbip.Server.{
  UsbipServer, Sockets, recv, Action, ◌>>=◌, ◌>>◌, pure, need, gets, get_client, set_fifo, call,
  is_failure, would_block,
}
use embedded_usbip.Usbip.Server.Clients.{client_stop}

abbrev pub usbip_version : ℕ
usbip_version = 0x0111

abbrev pub rep_devlist : ℕ
rep_devlist = 0x0005

abbrev pub rep_import : ℕ
rep_import = 0x0003

abbrev pub usbip_status_ok : ℕ
usbip_status_ok = 0

-- The bytes of `TO_NETWORK_ENDIAN_U16(val)` and `_U32`.
unfoldable pub network16 : ℕ → Option (List ℕ)
unfolding i_bswap16
network16 val = elim (i_bswap16 val) [ none ↦ none | some v ↦ some (to_bytes 2 v) ]

unfoldable pub network32 : ℕ → Option (List ℕ)
unfolding i_bswap32
network32 val = elim (i_bswap32 val) [ none ↦ none | some v ↦ some (to_bytes 4 v) ]

-- The packed `hdr_common_t` with `USBIP_VERSION`.
unfoldable pub hdr_common : (op_code status : ℕ) → Option (List ℕ)
unfolding network16 network32
hdr_common op_code status = elim (network16 usbip_version) [
  | none ↦ none
  | some v ↦ elim (network16 op_code) [
    | none ↦ none
    | some o ↦ elim (network32 status) [ none ↦ none | some s ↦ some (v ++ (o ++ s)) ]
  ]
]

-- The packed `hdr_rep_devlist_t`.
unfoldable pub hdr_rep_devlist : (dev_count : ℕ) → Option (List ℕ)
unfolding hdr_common
hdr_rep_devlist dev_count = elim (hdr_common rep_devlist usbip_status_ok) [
  | none ↦ none
  | some hdr ↦ elim (network32 dev_count) [ none ↦ none | some n ↦ some (hdr ++ n) ]
]

-- What `(*(void**)ctx)` points to, for a `ctx` that points to a fifo: the first bytes of the fifo's
-- buffer, read as a `stream_fifo_t`. Its pointers are made of these bytes. No memory of the program
-- is taken to lie where they point, so a copy through them is a fault. Where the tail is below
-- the start, their distance is a number modulo 2^64, and the test of `stream_fifo_push` for the end
-- of the buffer may come out otherwise than for the pointers: both its branches copy the message.
abbrev pub word64_at : (off : ℕ) → List ℕ → ℕ
word64_at off bytes = of_bytes (take 8 (drop off bytes))

unfoldable pub fifo_at : (bytes : List ℕ) → Option StreamFifo
fifo_at bytes = elim (copy_out bytes 0 32) [
  | none ↦ none
  | some b ↦ some (record {
    buf = [];
    head = sub_size (word64_at 8 b) (word64_at 0 b);
    tail = sub_size (word64_at 16 b) (word64_at 0 b);
    buffer_len = word64_at 24 b;
  })
]

-- The context is the fifo that `(*(void**)ctx)` points to. The device is the one of the `vusb_dev_t` at
-- `vdev`.
unfoldable pub fill_devlist : Store → (vdev : ℕ) → World StreamFifo → Option (World StreamFifo)
unfolding usb_dev_to_buf usb_dev_if_to_buf
fill_devlist s vdev w = elim (device_at s vdev) [
  | none ↦ none
  | some dev ↦ elim (usb_dev_to_buf w.ctx dev) [
    | none ↦ none
    | some (false, q) ↦ some (record w { ctx = q })
    | some (true, q) ↦ elim (usb_dev_if_to_buf q dev) [
      | none ↦ none
      | some (sent, q') ↦ some (record w { ctx = q' })
    ]
  ]
]

-- `vhci_iter_devices` with the address of the client's fifo. A push that is no fault was refused, and
-- leaves the bytes as they are.
unfoldable pub fill_devlists : (client : ℕ) → VhciHandle → Store → Action (Unit {0})
unfolding fill_devlist fifo_at
fill_devlists client h s = do
  c ← get_client client
  fifo ← need (fifo_at c.out_fifo.buf)
  after ← need (vhci_iter_devices (fill_devlist s) s h fifo)
  pure tt

-- The text at the address 1 is `busid`.
abbrev pub text_at_1 : List ℕ → ℕ → Option (List ℕ)
text_at_1 busid a = if a == 1 then some busid else none

module _ (sockets : Sockets) where
  -- A message is pushed, and for the result 0 the client is stopped, with -1, which is `true`.
  unfoldable pub push_or_stop : (client i : ℕ) (msg : List ℕ) → Action Bool → Action Bool
  unfolding client_stop
  push_or_stop client i msg rest = do
    c ← get_client client
    (n, q) ← need (stream_fifo_push c.out_fifo msg)
    set_fifo client c q
    if n == 0 then (do client_stop sockets client i; pure true) else rest

  unfoldable pub usbip_resp_devlist : (client i : ℕ) → Action Bool
  usbip_resp_devlist client i = do
    h ← gets UsbipServer.vhci
    s ← gets UsbipServer.store
    reply ← need (hdr_rep_devlist h.devices.size)
    push_or_stop client i reply
        (if ltb 0 h.devices.size then (do fill_devlists client h s; pure false) else pure false)

  -- The device at `vdev` behind the header of the reply.
  unfoldable pub found_sends : (client i vdev : ℕ) → Action Bool
  found_sends client i vdev = do
    s ← gets UsbipServer.store
    c ← get_client client
    dev ← need (device_at s vdev)
    (sent, q) ← need (usb_dev_to_buf c.out_fifo dev)
    set_fifo client c q
    if sent then pure false else (do client_stop sockets client i; pure true)

  -- The device was found at `vdev`.
  unfoldable pub import_found : (client i vdev : ℕ) → Action Bool
  import_found client i vdev = do
    hdr ← need (hdr_common rep_import usbip_status_ok)
    push_or_stop client i hdr (found_sends client i vdev)

  unfoldable pub import_named : (client i : ℕ) (busid : List ℕ) → Action Bool
  import_named client i busid = do
    h ← gets UsbipServer.vhci
    s ← gets UsbipServer.store
    vdev ← need (vhci_find_device (text_at_1 busid) s h 1)
    if vdev == 0 then pure false else import_found client i vdev

  -- `true` for -1.
  unfoldable pub usbip_handle_import : (client i : ℕ) → Action Bool
  usbip_handle_import client i = do
    c ← get_client client
    a ← call sockets (recv c.sock 32)
    if is_failure a
        then (if would_block a then pure false else (do client_stop sockets client i; pure true))
        else (do
          busid ← need (copy_in (replicate 32 0) 0 a.bytes)
          if length a.bytes == 0 then pure false else import_named client i busid)
