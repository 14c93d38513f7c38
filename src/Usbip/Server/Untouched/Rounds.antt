-- ===== src/Usbip/Server/Untouched/Rounds.antt =====
-- What `usbip_client_handle` and a round of the server leave alone.
use embedded_usbip.Prelude.{
  ℕ, suc, ◌≡◌, subst, ◌/◌, ◌%◌, ◌^◌, ◌==◌, ◌&&◌, ltb, leb, length, take, drop, Bool, not, false,
  Option, none, some, List, if◌then◌else◌, is_negative,
}
use embedded_usbip.StreamFifo.{stream_fifo_length}
use embedded_usbip.StreamFifo.Socket.{stream_fifo_send_sock}
use embedded_usbip.LinkedList.{linked_list_iter}
use embedded_usbip.LinkedList.Kept.{Holds, HoldsBehind, iter-Holds}
use embedded_usbip.Conv.{i_bswap32, of_bytes}
use embedded_usbip.Usbip.Commands.{HdrCmd, usbip_cmd_submit}
use embedded_usbip.Usbip.Server.{
  ServerWorld, UsbipClient, Sockets, recv, send, Action, is_failure, eagain,
}
use embedded_usbip.Usbip.Server.Clients.{usbip_accept_new_client}
use embedded_usbip.Usbip.Server.Replies.{usbip_version}
use embedded_usbip.Usbip.Server.Handle.{
  int_of, cmd_of, send_pending, request, run_command, read_command, dispatch_word, dispatch,
  receive, usbip_client_handle, usbip_server_handle_once, req_devlist, req_import, usbip_cmd_unlink,
}
use embedded_usbip.Usbip.Server.Untouched.{
  SameController, SameController-trans, Keeps, Untouched, Behind, bind-Keeps, pure-Keeps,
  need-Keeps, get_client-Keeps, call-Keeps, if-Keeps,
}
use embedded_usbip.Usbip.Server.Untouched.Clients.{stopped-Keeps, usbip_accept_new_client-Keeps}
use embedded_usbip.Usbip.Server.Untouched.Requests.{
  set_fifo-Keeps, failed-Keeps, usbip_resp_devlist-Keeps, usbip_handle_import-Keeps,
}
use embedded_usbip.Usbip.Server.Untouched.Commands.{unlink_command-Keeps, handle_urb_submit-Keeps}

module _ (sockets : Sockets) {client : ℕ} (i : ℕ) where
  run_command-Keeps : (cmd : HdrCmd) → Keeps client (run_command sockets client cmd)
  unfolding run_command
  run_command-Keeps cmd =
      if-Keeps (cmd.command == usbip_cmd_submit) (handle_urb_submit-Keeps sockets cmd)
        (if-Keeps (cmd.command == usbip_cmd_unlink) (unlink_command-Keeps cmd) (pure-Keeps false))

  read_command-Keeps :
      (first second : ℕ) → Keeps client (read_command sockets client i first second)
  unfolding read_command
  read_command-Keeps first second = bind-Keeps (get_client-Keeps client) (λ c.
      bind-Keeps (call-Keeps sockets (recv c.sock 40)) (λ a.
        if-Keeps (is_failure a) (failed-Keeps sockets i a) (
          bind-Keeps (need-Keeps (if leb (length a.bytes) 40 then some tt else none)) (λ u.
            if-Keeps (length a.bytes == 40)
              (bind-Keeps (need-Keeps (cmd_of first second a.bytes)) run_command-Keeps)
              (pure-Keeps false)))))

  request-Keeps : (version op_code : ℕ) → Keeps client (request sockets version op_code client i)
  unfolding request
  request-Keeps version op_code =
      if-Keeps (version == usbip_version)
        (if-Keeps (op_code == req_devlist) (usbip_resp_devlist-Keeps sockets i) (
          if-Keeps (op_code == req_import) (usbip_handle_import-Keeps sockets i)
            (pure-Keeps false)))
        (pure-Keeps false)

  dispatch-Keeps : (hdr : List ℕ) → Keeps client (dispatch sockets client i hdr)
  unfolding dispatch dispatch_word
  dispatch-Keeps hdr = bind-Keeps (need-Keeps (i_bswap32 (of_bytes (take 4 hdr)))) (λ first.
      if-Keeps (ltb usbip_cmd_unlink first)
        (request-Keeps (first / 2 ^ 16 % 2 ^ 16) (first % 2 ^ 16))
        (read_command-Keeps first (of_bytes (drop 4 hdr))))

  receive-Keeps : Keeps client (receive sockets client i)
  unfolding receive
  receive-Keeps = bind-Keeps (get_client-Keeps client) (λ c.
      bind-Keeps (call-Keeps sockets (recv c.sock 8)) (λ a.
        if-Keeps (is_failure a) (failed-Keeps sockets i a) (
          bind-Keeps (need-Keeps (if leb (length a.bytes) 8 then some tt else none))
            (λ u. if-Keeps (length a.bytes == 8) (dispatch-Keeps a.bytes) (pure-Keeps false)))))

  send_pending-Keeps :
      {rest : Action Bool} → Keeps client rest → Keeps client (send_pending sockets client i rest)
  unfolding send_pending
  send_pending-Keeps k = bind-Keeps (get_client-Keeps client) (λ c.
      if-Keeps (ltb 0 (stream_fifo_length c.out_fifo))
        (bind-Keeps (call-Keeps sockets (send c.sock c.out_fifo)) (λ a.
          bind-Keeps (need-Keeps (stream_fifo_send_sock (λ piece. int_of a) c.out_fifo))
            (λ (bytes, q). bind-Keeps (set_fifo-Keeps c q) (λ u.
              if-Keeps (is_negative bytes && not (a.errno == eagain)) (stopped-Keeps sockets i)
                k))))
        k)

  client_handle-Keeps : Keeps client (usbip_client_handle sockets client i)
  unfolding usbip_client_handle
  client_handle-Keeps = send_pending-Keeps receive-Keeps

-- Whatever arrives from a client, when `usbip_client_handle` ends, the host controller with its
-- devices, the listening socket, and every client at another address are as they were.
pub usbip_client_handle-Untouched :
    (sockets : Sockets) (client i : ℕ) (w : ServerWorld) (result : Bool) (w' : ServerWorld)
    → usbip_client_handle sockets client i w ≡ some (result, w')
    → Untouched client w w'
usbip_client_handle-Untouched sockets client i w result w' e =
    subst (Behind (Untouched client w)) e ((client_handle-Keeps sockets i).kept w)

module _ (sockets : Sockets) where
  polled-SameController :
      (w0 : ServerWorld) (client i : ℕ) (w : ServerWorld)
      → SameController w0 w
      → HoldsBehind (SameController w0) (usbip_client_handle sockets client i w)
  polled-SameController w0 client i w s =
      after (usbip_client_handle sockets client i w) ((client_handle-Keeps sockets i).kept w)
    where
      after :
          (r : Option (Bool × ServerWorld))
          → Behind (Untouched client w) r
          → HoldsBehind (SameController w0) r
      after none k = tt
      after (some (b, w')) k = SameController-trans s k.controller

  -- Behind the new connection.
  rounds-SameController :
      (w : ServerWorld) (client : ℕ) (r : Option (Bool × ServerWorld))
      → Behind (Untouched client w) r
      → HoldsBehind (SameController w) (elim r [
        | none ↦ none
        | some (refused, w') ↦
            elim (linked_list_iter (suc w'.list.size) (usbip_client_handle sockets) w') [
              | none ↦ none
              | some w'' ↦ some (false, w'')
            ]
      ])
  rounds-SameController w client none k = tt
  rounds-SameController w client (some (refused, w')) k =
      after (linked_list_iter (suc w'.list.size) (usbip_client_handle sockets) w') (
        iter-Holds (usbip_client_handle sockets) (SameController w) (polled-SameController w)
          (suc w'.list.size) w' k.controller)
    where
      after :
          (r : Option ServerWorld)
          → Holds (SameController w) r
          → HoldsBehind (SameController w) (elim r [ none ↦ none | some w'' ↦ some (false, w'') ])
      after none h = tt
      after (some w'') h = h

  -- Whatever the sockets do and whatever the clients send: behind a round of the server that ends, the
  -- host controller with its devices, and the listening socket, are as they were.
  pub usbip_server_handle_once-SameController :
      (client node : ℕ) (fresh : UsbipClient) (w : ServerWorld) (result : Bool) (w' : ServerWorld)
      → usbip_server_handle_once sockets client node fresh w ≡ some (result, w')
      → SameController w w'
  unfolding usbip_server_handle_once
  usbip_server_handle_once-SameController client node fresh w result w' e =
      subst (HoldsBehind (SameController w)) e (
        rounds-SameController w client (usbip_accept_new_client sockets client node fresh w)
          ((usbip_accept_new_client-Keeps sockets node fresh).kept w))
