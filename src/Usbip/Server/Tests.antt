-- ===== src/Usbip/Server/Tests.antt =====
-- Sockets that answer by fixed rules, and the theorems at the sample server.
use embedded_usbip.Prelude.{
  find, ℕ, true, zero, suc, ◌<◌, ◌≡◌, ◌≢◌, refl, false, some, none, List, [], ◌∷◌, ◌++◌, ◌==◌,
  if◌then◌else◌, arith, replicate, splice,
}
use embedded_usbip.StreamFifo.{StreamFifo, IsValid, contents, stream_fifo_length}
use embedded_usbip.LinkedList.{load, linked_list_iter}
use embedded_usbip.LinkedList.Shape.{Cells, item_at, IsList}
use embedded_usbip.Vhci.Text.{strncmp_eq}
use embedded_usbip.Vhci.Devices.{device_at, vhci_find_device}
use embedded_usbip.Usbip.Server.{UsbipClient, ServerWorld, Sockets, recv}
use embedded_usbip.Usbip.Server.Settles.{SameClients, Settles, called}
use embedded_usbip.Usbip.Server.Clients.{usbip_accept_new_client, usbip_server_setup}
use embedded_usbip.Usbip.Server.Accept.{Joined, usbip_accept_new_client-Settles}
use embedded_usbip.Usbip.Server.Listen.{Listens, Ready, usbip_server_setup-Settles}
use embedded_usbip.Usbip.Server.Replies.{usbip_resp_devlist, text_at_1, usbip_handle_import}
use embedded_usbip.Usbip.Server.Untouched.{Untouched}
use embedded_usbip.Usbip.Server.Untouched.Rounds.{usbip_client_handle-Untouched}
use embedded_usbip.Usbip.Server.Stopping.{Stopped, failed_recv_stops}
use embedded_usbip.Usbip.Server.Submit.{urb_complete_cb, handle_urb_submit}
use embedded_usbip.Usbip.Server.Completed.{completed, data_of, urb_complete_cb-Answered}
use embedded_usbip.Usbip.Answers.{Answered, answer}
use embedded_usbip.Urb.{Urb}
use embedded_usbip.Usbip.Server.Handle.{send_pending, receive, recv_failed, usbip_client_handle}
use embedded_usbip.Usbip.Server.Dispatch.{Waits, request_answered, command_ignored}
use embedded_usbip.Usbip.Server.Devices.{with_fifo, reply_hdr, resp_devlist_empty}
use embedded_usbip.Usbip.Server.Import.{busid_of, import_header_only}
use embedded_usbip.Urb.Errno
use embedded_usbip.Usbip.Commands.{HdrCmd, enodev}
use embedded_usbip.Usbip.Server.Submitting.{submit_answered_twice}
use embedded_usbip.Usbip.Server.Samples.{
  fifo, fifo-IsValid, client, device, store, cells, server, one_client, served, alone, answering,
  waits, remaining_empty,
}

-- A connection is there, on the socket 4, and no call fails.
abbrev connecting : Sockets
connecting cs = elim cs [
  | [] ↦ record { value = some 0; errno = 0; bytes = [] }
  | c ∷ rest ↦ elim rest [
    | [] ↦ record { value = some 4; errno = 0; bytes = [] }
    | d ∷ more ↦ record { value = some 0; errno = 0; bytes = [] }
  ]
]

usbip_accept_new_client-Settles_example :
    Settles
      (SameClients alone)
      4
      (Joined [] 8 16 4 alone)
      (usbip_accept_new_client connecting 8 16 client)
      alone
usbip_accept_new_client-Settles_example =
    usbip_accept_new_client-Settles connecting 8 16 client 4 alone [] refl
      (record {
        linked = tt;
        size = refl;
        first = λ h. absurd (omega (arith, h));
        last = λ h. absurd (omega (arith, h));
      })
      refl (λ ne. refl) refl

usbip_server_setup-Settles_example :
    Settles
      (Listens alone alone.ctx.vhci 4)
      4
      (Ready connecting alone alone.ctx.vhci 4)
      (usbip_server_setup connecting alone.ctx.vhci)
      alone
usbip_server_setup-Settles_example =
    usbip_server_setup-Settles connecting alone.ctx.vhci 4 alone refl

request_answered_example :
    usbip_client_handle
      (answering (some 8) (1 ∷ 0x11 ∷ 0x80 ∷ 5 ∷ 0 ∷ 0 ∷ 0 ∷ 0 ∷ []))
      8
      0
      (served 1)
    ≡ usbip_resp_devlist
        (answering (some 8) (1 ∷ 0x11 ∷ 0x80 ∷ 5 ∷ 0 ∷ 0 ∷ 0 ∷ 0 ∷ []))
        8
        0
        (called (recv 4 8) (served 1))
request_answered_example =
    request_answered (answering (some 8) (1 ∷ 0x11 ∷ 0x80 ∷ 5 ∷ 0 ∷ 0 ∷ 0 ∷ 0 ∷ [])) 0 (waits 1) 8
      refl 0 0 0 0 5 (omega arith) refl

-- The first call gives a command, and the second the rest of its header.
abbrev commanding : Sockets
commanding cs = elim cs [
  | [] ↦ record { value = some 0; errno = 0; bytes = [] }
  | c ∷ rest ↦ elim rest [
    | [] ↦ record { value = some 8; errno = 0; bytes = 0 ∷ 0 ∷ 0 ∷ 2 ∷ 0 ∷ 0 ∷ 0 ∷ 7 ∷ [] }
    | d ∷ more ↦ record { value = some 40; errno = 0; bytes = replicate 40 0 }
  ]
]

command_ignored_example :
    usbip_client_handle commanding 8 0 (served 1)
    ≡ some (false, called (recv 4 40) (called (recv 4 8) (served 1)))
command_ignored_example =
    command_ignored commanding 0 (waits 1) 8 refl 0 0 0 7 2 40 (omega arith) refl refl refl

waiting : (i : ℕ) → i < 1 → (c : UsbipClient) × Waits (served 1) (item_at cells i) c
waiting zero lt = (client, waits 1)
waiting (suc i) lt = absurd (omega arith)

resp_devlist_empty_example :
    (q : StreamFifo) × (usbip_resp_devlist (answering (some 0) []) 8 0 (served 0)
      ≡ some (false, with_fifo 8 client q (served 0)))
    × IsValid q
    × (contents q ≡ contents fifo ++ (reply_hdr 5 ++ (0 ∷ 0 ∷ 0 ∷ 0 ∷ [])))
resp_devlist_empty_example =
    resp_devlist_empty (answering (some 0) []) (served 0) 8 0 client refl refl fifo-IsValid
      (omega (arith, remaining_empty)) (omega arith)

abbrev busid_bytes : List ℕ
busid_bytes = 48 ∷ 45 ∷ 49 ∷ replicate 29 0

found_device :
    vhci_find_device (text_at_1 (busid_of busid_bytes)) store (server 1 one_client).vhci 1 ≡ some 8
unfolding vhci_find_device linked_list_iter load device_at strncmp_eq splice
found_device = refl

import_header_only_example :
    (w' : ServerWorld) × (q : StreamFifo) × (usbip_handle_import
        (answering (some 32) busid_bytes)
        8
        0
        (served 1)
      ≡ some (false, w'))
    × (w'.ctx.clients 8 ≡ some (record client { out_fifo = q }))
    × IsValid q
    × (contents q ≡ reply_hdr 3)
    × ((a : ℕ) → a ≢ 8 → w'.ctx.clients a ≡ one_client a)
    × (w'.list ≡ (served 1).list)
unfolding device_at
import_header_only_example =
    import_header_only (answering (some 32) busid_bytes) (served 1) 8 0 client refl fifo-IsValid
      refl (omega arith) (omega arith) 32 8 device refl (omega arith) (omega arith) found_device
      (omega arith) refl refl refl

abbrev unknown_bytes : List ℕ
unknown_bytes = 48 ∷ 45 ∷ 50 ∷ []

found_none :
    vhci_find_device (text_at_1 (busid_of unknown_bytes)) store (server 1 one_client).vhci 1
    ≡ some 0
unfolding vhci_find_device linked_list_iter load device_at strncmp_eq splice
found_none = refl

-- A request for data on endpoint 0, of which 4 bytes came.
abbrev urb : Urb
urb = record {
  pipe = 1;
  status = 0;
  transfer_buffer = some (1 ∷ 2 ∷ 3 ∷ 4 ∷ []);
  transfer_buffer_length = 4;
  actual_length = 4;
  setup_packet = record {
    bm_request_type = 128;
    b_request = 6;
    w_value = 256;
    w_index = 0;
    w_length = 4;
  };
  transfer_flags = 0;
  number_of_packets = 0;
  start_frame = 0;
  interval = 0;
  error_count = 0;
  seq_num = 7;
}

urb_complete_cb-Answered_example :
    Answered fifo (completed urb ++ data_of true (1 ∷ 2 ∷ 3 ∷ 4 ∷ []) 4) (urb_complete_cb fifo urb)
urb_complete_cb-Answered_example =
    urb_complete_cb-Answered fifo urb (1 ∷ 2 ∷ 3 ∷ 4 ∷ []) fifo-IsValid refl (omega arith)
      (omega (arith, remaining_empty)) (omega arith) (omega arith)

polled_run :
    usbip_client_handle (answering none []) 8 0 (served 1)
    ≡ some (false, called (recv 4 8) (served 1))
unfolding usbip_client_handle send_pending receive recv_failed stream_fifo_length
polled_run = refl

usbip_client_handle-Untouched_example : Untouched 8 (served 1) (called (recv 4 8) (served 1))
usbip_client_handle-Untouched_example =
    usbip_client_handle-Untouched (answering none []) 8 0 (served 1) false
      (called (recv 4 8) (served 1)) polled_run

-- Two clients in the list, at 8 and 40; the connection of the one at 8 is reset.
abbrev two_cells : Cells
two_cells = (16, 8) ∷ (32, 40) ∷ []

abbrev two_clients : ServerWorld
two_clients = record (served 1) {
  heap = λ a.
      if a == 16
      then some (record { item = 8; next = 32; prev = 0 })
      else if a == 32
      then some (record { item = 40; next = 0; prev = 16 })
      else none;
  list = record { size = 2; first = 16; last = 32 };
}

two_clients-IsList : IsList two_clients.heap two_clients.list two_cells
two_clients-IsList = record {
  linked = (refl, omega arith, refl, (refl, omega arith, refl, tt));
  size = refl;
  first = λ h. refl;
  last = λ h. refl;
}

abbrev resetting : Sockets
resetting cs = record { value = none; errno = 104; bytes = [] }

client-Waits : Waits two_clients 8 client
unfolding stream_fifo_length
client-Waits = record { in_memory = refl; nothing = refl }

failed_recv_stops_example :
    (w' : ServerWorld) × (usbip_client_handle resetting 8 0 two_clients ≡ some (true, w'))
    × Stopped two_cells 8 0 client (called (recv 4 8) two_clients) w'
failed_recv_stops_example =
    failed_recv_stops resetting two_clients 8 0 client two_cells client-Waits two_clients-IsList
      (omega arith) (omega arith) refl (omega arith)

abbrev submit : HdrCmd
submit = record {
  command = 1;
  seq_num = 7;
  busnum = 0;
  devnum = 1;
  direction = 0;
  endpoint = 0;
  padding = replicate 28 0;
}

submit_answered_twice_example :
    (w' : ServerWorld) × (q : StreamFifo) × (handle_urb_submit
        (answering none [])
        8
        submit
        (served 1)
      ≡ some (false, w'))
    × (w'.ctx.clients 8 ≡ some (record client { out_fifo = q }))
    × IsValid q
    × (contents q ≡ contents fifo ++ (answer submit 3 Errno.einval ++ answer submit 3 enodev))
    × (w'.ctx.calls ≡ [])
    × ((a : ℕ) → a ≢ 8 → w'.ctx.clients a ≡ one_client a)
unfolding find
submit_answered_twice_example =
    submit_answered_twice (answering none []) (served 1) 8 client submit refl refl fifo-IsValid refl
      (omega (arith, remaining_empty)) (omega arith)
