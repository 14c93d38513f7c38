-- ===== src/Usbip/Server/Submit.antt =====
-- Submit commands and their answers: `urb_complete_cb` and `handle_urb_submit` of src/usbip.c, and
-- `handle_urb_unlink` on the fifo of a client.
use embedded_usbip.Prelude.{
  ℕ, ◌+◌, ◌*◌, ◌%◌, ◌^◌, Bool, false, Option, none, some, List, ◌==◌, not, if◌then◌else◌, length,
  replicate, copy_in, copy_out,
}
use embedded_usbip.StreamFifo.{StreamFifo, stream_fifo_push}
use embedded_usbip.Conv.{i_bswap16, i_bswap32, to_bytes, of_bytes}
use embedded_usbip.Urb.{Urb, pipe_dir, pipe_in}
use embedded_usbip.Vhci.{vhci_urb_init, vhci_submit_urb}
use embedded_usbip.Usbip.Commands.{
  HdrCmd, usbip_ret_submit, enodev, store32, with_command, write_cmd_response_header, write_error,
  get_client_dev, handle_urb_unlink,
}
use embedded_usbip.Usbip.Server.{
  UsbipServer, Sockets, recv, Action, ◌>>=◌, ◌>>◌, pure, need, gets, get_client, set_fifo, call,
  is_failure, would_block,
}

-- The header that `urb_complete_cb` builds before the conversions.
abbrev pub zero_hdr : HdrCmd
zero_hdr = record {
  command = 0;
  seq_num = 0;
  busnum = 0;
  devnum = 0;
  direction = 0;
  endpoint = 0;
  padding = replicate 28 0;
}

abbrev pub complete_hdr : Urb → Option HdrCmd
complete_hdr urb = store32 4 urb.actual_length (
    store32 16 urb.error_count (
      store32 12 urb.number_of_packets (
        store32 8 urb.start_frame
          (store32 0 urb.status (with_command usbip_ret_submit urb.seq_num zero_hdr)))))

-- `stream_fifo_push(fifo, buffer, n)`, the result not looked at.
unfoldable pub push_buffer : StreamFifo → (buffer : Option (List ℕ)) → (n : ℕ) → Option StreamFifo
push_buffer fifo none n = none
push_buffer fifo (some buffer) n = elim (copy_out buffer 0 n) [
  | none ↦ none
  | some msg ↦ elim (stream_fifo_push fifo msg) [ none ↦ none | some (r, q) ↦ some q ]
]

unfoldable pub urb_complete_cb : StreamFifo → Urb → Option StreamFifo
unfolding write_cmd_response_header store32 with_command push_buffer
urb_complete_cb fifo urb = elim (write_cmd_response_header fifo (complete_hdr urb)) [
  | none ↦ none
  | some q ↦
      if pipe_dir urb.pipe == pipe_in
      then push_buffer q urb.transfer_buffer urb.actual_length
      else some q
]

-- A number converted from network order in place.
unfoldable pub swap32_at : (off : ℕ) → Option (List ℕ) → Option (List ℕ)
unfolding i_bswap32
swap32_at off none = none
swap32_at off (some buf) = elim (copy_out buf off 4) [
  | none ↦ none
  | some b ↦ elim (i_bswap32 (of_bytes b)) [ none ↦ none | some v ↦ copy_in buf off (to_bytes 4 v) ]
]

unfoldable pub swap16_at : (off : ℕ) → Option (List ℕ) → Option (List ℕ)
unfolding i_bswap16
swap16_at off none = none
swap16_at off (some buf) = elim (copy_out buf off 2) [
  | none ↦ none
  | some b ↦ elim (i_bswap16 (of_bytes b)) [ none ↦ none | some v ↦ copy_in buf off (to_bytes 2 v) ]
]

-- The fields of the `cmd_t` in the padding, and `wValue` of its setup packet, from network order.
unfoldable pub parse_cmd : (padding : List ℕ) → Option (List ℕ)
unfolding swap32_at swap16_at
parse_cmd padding =
    swap16_at 22
      (swap32_at 16 (swap32_at 12 (swap32_at 8 (swap32_at 4 (swap32_at 0 (some padding))))))

-- A number of `n` bytes at an offset of the padding.
abbrev pub field : (off n : ℕ) → List ℕ → ℕ
field off n buf = elim (copy_out buf off n) [ none ↦ 0 | some b ↦ of_bytes b ]

-- The request of a command whose padding is parsed.
unfoldable pub urb_of : HdrCmd → Urb
urb_of hdr = record {
  pipe = hdr.direction % 2 + hdr.endpoint * 8 % 2 ^ 32;
  status = 0;
  transfer_buffer = none;
  transfer_buffer_length = field 4 4 hdr.padding;
  actual_length = 0;
  setup_packet = record {
    bm_request_type = field 20 1 hdr.padding;
    b_request = field 21 1 hdr.padding;
    w_value = field 22 2 hdr.padding;
    w_index = field 24 2 hdr.padding;
    w_length = field 26 2 hdr.padding;
  };
  transfer_flags = field 0 4 hdr.padding;
  number_of_packets = field 12 4 hdr.padding;
  start_frame = field 8 4 hdr.padding;
  interval = field 16 4 hdr.padding;
  error_count = 0;
  seq_num = hdr.seq_num;
}

-- An answer with an error on the fifo of a client; the result of the command is 0.
unfoldable pub answer_error : (client : ℕ) → HdrCmd → (command error : ℕ) → Action Bool
unfolding write_error
answer_error client hdr command error = do
  c ← get_client client
  q ← need (write_error c.out_fifo hdr command error)
  set_fifo client c q
  pure false

module _ (sockets : Sockets) where
  -- The data of a request to the device: they are received at `transfer_buffer`, which is NULL, so
  -- that bytes that come are written nowhere. `vhci_submit_urb` always returns -1.
  unfoldable pub receive_out : (client : ℕ) → HdrCmd → Urb → Action Bool
  unfolding answer_error vhci_submit_urb
  receive_out client hdr urb = do
    c ← get_client client
    h ← gets UsbipServer.vhci
    a ← call sockets (recv c.sock urb.transfer_buffer_length)
    if is_failure a then pure (not (would_block a)) else (do
      need (if length a.bytes == 0 then some tt else none)
      if length a.bytes == urb.transfer_buffer_length
          then answer_error client hdr usbip_ret_submit
              (vhci_submit_urb h (record urb { actual_length = length a.bytes }))
          else pure false)

  -- The device is there. `vhci_urb_init` always returns 0.
  unfoldable pub submit_parsed : (client : ℕ) → HdrCmd → Action Bool
  unfolding receive_out urb_of vhci_urb_init
  submit_parsed client hdr =
      let urb = vhci_urb_init (urb_of hdr) in
      if pipe_dir urb.pipe == 0 then receive_out client hdr urb else pure false

  -- `true` for -1.
  unfoldable pub handle_urb_submit : (client : ℕ) → HdrCmd → Action Bool
  unfolding submit_parsed parse_cmd get_client_dev answer_error
  handle_urb_submit client hdr = do
    c ← get_client client
    s ← gets UsbipServer.store
    h ← gets UsbipServer.vhci
    (dev, q) ← need (get_client_dev s h c.imported_devs c.out_fifo hdr)
    set_fifo client c q
    if dev == 0 then answer_error client hdr usbip_ret_submit enodev else (do
      padding ← need (parse_cmd hdr.padding)
      submit_parsed client (record hdr { padding = padding }))

-- `handle_urb_unlink`, which returns 0.
unfoldable pub unlink_command : (client : ℕ) → HdrCmd → Action Bool
unfolding handle_urb_unlink
unlink_command client hdr = do
  c ← get_client client
  s ← gets UsbipServer.store
  h ← gets UsbipServer.vhci
  q ← need (handle_urb_unlink s h c.imported_devs c.out_fifo hdr)
  set_fifo client c q
  pure false
