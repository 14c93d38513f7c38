-- ===== src/Usbip/Server/Handle.antt =====
-- `usbip_client_handle` and `usbip_server_handle_once` of src/usbip.c.
use embedded_usbip.Prelude.{
  ℕ, suc, ◌-◌, ◌/◌, ◌%◌, ◌^◌, Bool, true, false, Option, none, some, List, ◌==◌, ◌&&◌, not, ltb,
  leb, if◌then◌else◌, length, take, drop, is_negative,
}
use embedded_usbip.StreamFifo.{stream_fifo_length}
use embedded_usbip.StreamFifo.Socket.{stream_fifo_send_sock}
use embedded_usbip.Conv.{i_bswap16, i_bswap32, of_bytes}
use embedded_usbip.LinkedList.{Callback, linked_list_iter}
use embedded_usbip.Usbip.Commands.{HdrCmd, usbip_cmd_submit}
use embedded_usbip.Usbip.Server.{
  UsbipClient, UsbipServer, Sockets, Answer, send, recv, Action, ◌>>=◌, ◌>>◌, pure, need,
  get_client, set_fifo, call, is_failure, would_block, eagain,
}
use embedded_usbip.Usbip.Server.Clients.{client_stop, usbip_accept_new_client}
use embedded_usbip.Usbip.Server.Replies.{usbip_version, usbip_resp_devlist, usbip_handle_import}
use embedded_usbip.Usbip.Server.Submit.{handle_urb_submit, unlink_command}

abbrev pub usbip_cmd_unlink : ℕ
usbip_cmd_unlink = 2

abbrev pub req_devlist : ℕ
req_devlist = 0x8005

abbrev pub req_import : ℕ
req_import = 0x8003

-- What `send` returns, as an `int`.
abbrev pub int_of : Answer → ℕ
int_of a = elim a.value [ none ↦ 2 ^ 32 - 1 | some n ↦ n ]

-- The command behind the first eight bytes: `rest` are the 40 bytes that follow.
unfoldable pub cmd_of : (first second : ℕ) → (rest : List ℕ) → Option HdrCmd
unfolding i_bswap16 i_bswap32
cmd_of first second rest = elim (i_bswap32 first) [
  | none ↦ none
  | some command ↦ elim (i_bswap32 second) [
    | none ↦ none
    | some seq_num ↦ elim (i_bswap16 (of_bytes (take 2 rest))) [
      | none ↦ none
      | some busnum ↦ elim (i_bswap16 (of_bytes (take 2 (drop 2 rest)))) [
        | none ↦ none
        | some devnum ↦ elim (i_bswap16 (of_bytes (take 4 (drop 4 rest)) % 2 ^ 16)) [
          | none ↦ none
          | some direction ↦ elim (i_bswap16 (of_bytes (take 4 (drop 8 rest)) % 2 ^ 16)) [
            | none ↦ none
            | some endpoint ↦ some (record {
              command = command;
              seq_num = seq_num;
              busnum = busnum;
              devnum = devnum;
              direction = direction;
              endpoint = endpoint;
              padding = drop 12 rest;
            })
          ]
        ]
      ]
    ]
  ]
]

module _ (sockets : Sockets) where
  -- `recv` failed: the client stays, or is stopped, with -1, which is `true`.
  unfoldable pub recv_failed : (client i : ℕ) → Answer → Action Bool
  unfolding client_stop
  recv_failed client i a =
      if would_block a then pure false else (do client_stop sockets client i; pure true)

  -- The bytes that the fifo holds are sent, and the rest follows.
  unfoldable pub send_pending : (client i : ℕ) → Action Bool → Action Bool
  unfolding stream_fifo_length stream_fifo_send_sock client_stop
  send_pending client i rest = do
    c ← get_client client
    if ltb 0 (stream_fifo_length c.out_fifo)
        then (do
          a ← call sockets (send c.sock c.out_fifo)
          (bytes, q) ← need (stream_fifo_send_sock (λ piece. int_of a) c.out_fifo)
          set_fifo client c q
          if is_negative bytes && not (a.errno == eagain)
              then (do client_stop sockets client i; pure true)
              else rest)
        else rest

  unfoldable pub request : (version op_code client i : ℕ) → Action Bool
  request version op_code client i =
      if version == usbip_version
      then (if op_code == req_devlist
          then usbip_resp_devlist sockets client i
          else if op_code == req_import
          then usbip_handle_import sockets client i
          else pure false)
      else pure false

  unfoldable pub run_command : (client : ℕ) → HdrCmd → Action Bool
  run_command client cmd =
      if cmd.command == usbip_cmd_submit
      then handle_urb_submit sockets client cmd
      else if cmd.command == usbip_cmd_unlink
      then unlink_command client cmd
      else pure false

  -- `first` is the first word, from network order; `second` is as it was received.
  unfoldable pub read_command : (client i first second : ℕ) → Action Bool
  read_command client i first second = do
    c ← get_client client
    a ← call sockets (recv c.sock 40)
    if is_failure a then recv_failed client i a else (do
      need (if leb (length a.bytes) 40 then some tt else none)
      if length a.bytes == 40
          then (do cmd ← need (cmd_of first second a.bytes); run_command client cmd)
          else pure false)

  -- `first` is the first word, from network order.
  unfoldable pub dispatch_word : (client i first second : ℕ) → Action Bool
  dispatch_word client i first second =
      if ltb usbip_cmd_unlink first
      then request (first / 2 ^ 16 % 2 ^ 16) (first % 2 ^ 16) client i
      else read_command client i first second

  unfoldable pub dispatch : (client i : ℕ) (hdr : List ℕ) → Action Bool
  unfolding i_bswap32
  dispatch client i hdr = do
    first ← need (i_bswap32 (of_bytes (take 4 hdr)))
    dispatch_word client i first (of_bytes (drop 4 hdr))

  unfoldable pub receive : (client i : ℕ) → Action Bool
  receive client i = do
    c ← get_client client
    a ← call sockets (recv c.sock 8)
    if is_failure a then recv_failed client i a else (do
      need (if leb (length a.bytes) 8 then some tt else none)
      if length a.bytes == 8 then dispatch client i a.bytes else pure false)

  -- `true` for -1.
  unfoldable pub usbip_client_handle : Callback UsbipServer
  usbip_client_handle client i = send_pending client i (receive client i)

  -- A round of the iteration makes the list no longer, so one unit of fuel more than it has nodes is
  -- enough.
  unfoldable pub usbip_server_handle_once : (client node : ℕ) (fresh : UsbipClient) → Action Bool
  usbip_server_handle_once client node fresh w =
      elim (usbip_accept_new_client sockets client node fresh w) [
        | none ↦ none
        | some (refused, w') ↦ elim (linked_list_iter (suc w'.list.size) usbip_client_handle w') [
          | none ↦ none
          | some w'' ↦ some (false, w'')
        ]
      ]
