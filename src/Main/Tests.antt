-- ===== src/Main/Tests.antt =====
-- The device of the program, as it is built, and a run of the program in which a client connects and
-- asks for the list of devices.
use embedded_usbip.Prelude.{
  ℕ, zero, suc, ◌<◌, ◌≡◌, refl, false, Bool, Option, none, some, List, [], ◌∷◌, ◌==◌, if◌then◌else◌,
  find, at_first, link_last, length, replicate, arith,
}
use embedded_usbip.StreamFifo.{StreamFifo, IsValid, stream_fifo_init, stream_fifo_length}
use embedded_usbip.LinkedList.{linked_list_init, linked_list_push, linked_list_iter, load, write}
use embedded_usbip.LinkedList.Shape.{item_at}
use embedded_usbip.UsbDev.{usb_dev_get_config, usb_dev_create}
use embedded_usbip.UsbDev.Add.{
  usb_dev_add_config, usb_if_add_ep, usb_if_grp_add, usb_dev_add_if_grp,
}
use embedded_usbip.Vhci.{
  update, vhci_init, next_numbers, register_pushed, register_numbered, vhci_register_dev,
}
use embedded_usbip.Usbip.Interfaces.{dev_if_bytes}
use embedded_usbip.Usbip.Server.{UsbipClient, ServerWorld, Sockets, Answer, recv, eagain}
use embedded_usbip.Usbip.Server.Clients.{
  stop_if, add_initialised, add_client, attempt, with_flags, set_options, add_or_stop,
  set_up_client, usbip_accept_new_client, set_up_listener, usbip_server_setup,
}
use embedded_usbip.Usbip.Server.Dispatch.{Waits}
use embedded_usbip.Usbip.Server.Handle.{
  recv_failed, send_pending, receive, usbip_client_handle, usbip_server_handle_once,
}
use embedded_usbip.Main.{dev1, serve, set_up, rounds, main}
use embedded_usbip.Main.Exported.{Serves, set_up-Serves}
use embedded_usbip.Main.Served.{main-Serves, main_devlist_faults}
use embedded_usbip.Main.Idling.{Idles, rounds_idle}

dev1_interfaces : dev_if_bytes dev1 ≡ 2 ∷ 2 ∷ 1 ∷ 0 ∷ 10 ∷ 0 ∷ 0 ∷ 0 ∷ []
unfolding usb_dev_create usb_dev_add_config usb_if_add_ep usb_if_grp_add usb_dev_add_if_grp
    usb_dev_get_config find at_first link_last
dev1_interfaces = refl

abbrev said : (value : ℕ) (bytes : List ℕ) → Answer
said value bytes = record { value = some value; errno = 0; bytes = bytes }

-- The program listens on the socket 3, a client comes on the socket 4, is asked for a request too
-- early, and then has one.
abbrev scripted : Sockets
scripted cs =
    if length cs == 1
    then said 3 []
    else if length cs == 6
    then said 4 []
    else if length cs == 12
    then record { value = none; errno = eagain; bytes = [] }
    else if length cs == 13
    then said 8 (1 ∷ 0x11 ∷ 0x80 ∷ 5 ∷ 0 ∷ 0 ∷ 0 ∷ 0 ∷ [])
    else said 0 []

abbrev fifo : StreamFifo
fifo = record { buf = replicate 1024 0; head = 0; tail = 0; buffer_len = 1024 }

fifo-IsValid : IsValid fifo
fifo-IsValid = record {
  storage = refl;
  small = omega arith;
  head_in = omega arith;
  tail_in = omega arith;
}

abbrev fresh : UsbipClient
fresh = record { sock = 0; out_fifo = fifo; imported_devs = [] }

abbrev client : UsbipClient
client = record { sock = 4; out_fifo = fifo; imported_devs = [] }

-- Nothing is in memory.
abbrev nothing : ServerWorld
nothing = record {
  heap = λ a. none;
  list = record { size = 0; first = 0; last = 0 };
  ctx = record {
    vhci = record {
      devices = record { size = 0; first = 0; last = 0 };
      last_busnum = 0;
      last_devnum = 0;
    };
    store = record { heap = λ a. none; vdevs = λ a. none; devs = λ a. none };
    listen_sock = 0;
    clients = λ a. none;
    calls = [];
  };
}

set_up-Serves_example :
    (result : Bool) × (w' : ServerWorld) × (set_up scripted 8 16 100 nothing ≡ some (result, w'))
    × Serves 8 16 w'
set_up-Serves_example =
    set_up-Serves scripted 8 16 100 nothing (omega arith) (omega arith) (omega arith)

abbrev world_of : Option (Bool × ServerWorld) → ServerWorld
world_of none = nothing
world_of (some (b, w)) = w

-- The world behind one round, in which the client gets the memory at 24 and the node at 32.
abbrev connected : ServerWorld
connected = world_of (main scripted 8 16 100 ((24, 32, fresh) ∷ []) nothing)

connected_run : main scripted 8 16 100 ((24, 32, fresh) ∷ []) nothing ≡ some (false, connected)
unfolding main rounds set_up serve vhci_init linked_list_init vhci_register_dev register_numbered
    register_pushed next_numbers linked_list_push update usbip_server_setup set_up_listener attempt
    with_flags stop_if usbip_server_handle_once usbip_accept_new_client set_up_client set_options
    add_or_stop add_client add_initialised stream_fifo_init linked_list_iter load
    usbip_client_handle send_pending receive recv_failed stream_fifo_length write
connected_run = refl

main-Serves_example : Serves 8 16 connected
main-Serves_example =
    main-Serves scripted 8 16 100 (omega arith) (omega arith) (omega arith) ((24, 32, fresh) ∷ [])
      nothing false connected connected_run

client-Waits : Waits connected 24 client
unfolding main rounds set_up serve vhci_init linked_list_init vhci_register_dev register_numbered
    register_pushed next_numbers linked_list_push update usbip_server_setup set_up_listener attempt
    with_flags stop_if usbip_server_handle_once usbip_accept_new_client set_up_client set_options
    add_or_stop add_client add_initialised stream_fifo_init linked_list_iter load
    usbip_client_handle send_pending receive recv_failed stream_fifo_length write
client-Waits = record { in_memory = refl; nothing = refl }

request_comes :
    ((scripted (recv 4 8 ∷ connected.ctx.calls)).value ≡ some 8)
    × ((scripted (recv 4 8 ∷ connected.ctx.calls)).bytes ≡ 1 ∷ 0x11 ∷ 0x80 ∷ 5 ∷ 0 ∷ 0 ∷ 0 ∷ 0 ∷ [])
unfolding main rounds set_up serve vhci_init linked_list_init vhci_register_dev register_numbered
    register_pushed next_numbers linked_list_push update usbip_server_setup set_up_listener attempt
    with_flags stop_if usbip_server_handle_once usbip_accept_new_client set_up_client set_options
    add_or_stop add_client add_initialised stream_fifo_init linked_list_iter load
    usbip_client_handle send_pending receive recv_failed stream_fifo_length write
request_comes = (refl, refl)

main_devlist_faults_example : usbip_client_handle scripted 24 0 connected ≡ none
main_devlist_faults_example =
    main_devlist_faults scripted 8 16 100 (omega arith) (omega arith) (omega arith)
      ((24, 32, fresh) ∷ []) nothing false connected connected_run 24 0 client 8 0 0 0 0
      (replicate 992 0) client-Waits fifo-IsValid refl refl refl request_comes.0 request_comes.1

-- The server with one client, in the memory at 24, while nothing arrives.
abbrev idle_world : ServerWorld
idle_world = record nothing {
  heap = λ a. if a == 32 then some (record { item = 24; next = 0; prev = 0 }) else none;
  list = record { size = 1; first = 32; last = 32 };
  ctx = record (nothing.ctx) { clients = λ a. if a == 24 then some client else none };
}

waiting : (i : ℕ) → i < 1 → (c : UsbipClient) × Waits idle_world (item_at ((32, 24) ∷ []) i) c
unfolding stream_fifo_length
waiting zero lt = (client, record { in_memory = refl; nothing = refl })
waiting (suc i) lt = absurd (omega arith)

idle_world-Idles : Idles ((32, 24) ∷ []) idle_world
idle_world-Idles = record {
  list = record {
    linked = (refl, omega arith, refl, tt);
    size = refl;
    first = λ h. refl;
    last = λ h. refl;
  };
  waits = waiting;
}

abbrev silent : Sockets
silent cs = record { value = none; errno = eagain; bytes = [] }

rounds_idle_example :
    (w' : ServerWorld) × (rounds silent ((40, 48, fresh) ∷ (40, 48, fresh) ∷ []) idle_world
      ≡ some (tt, w'))
    × (w'.ctx.clients ≡ idle_world.ctx.clients)
    × Idles ((32, 24) ∷ []) w'
rounds_idle_example =
    rounds_idle silent (λ cs. (refl, refl)) ((32, 24) ∷ []) ((40, 48, fresh) ∷ (40, 48, fresh) ∷ [])
      idle_world idle_world-Idles
