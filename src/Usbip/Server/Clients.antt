-- ===== src/Usbip/Server/Clients.antt =====
-- Clients come and go: `sock_stop`, `client_stop`, `add_client`, `usbip_accept_new_client` and
-- `usbip_server_setup` of src/usbip.c.
use Prim.Native.Nat.{bit_or}
use embedded_usbip.Prelude.{ℕ, ◌-◌, ◌^◌, Bool, true, false, none, some, ◌==◌, not, if◌then◌else◌}
use embedded_usbip.StreamFifo.{InitResult, ok, failed, stream_fifo_init}
use embedded_usbip.LinkedList.{pushed, no_memory, linked_list_push, linked_list_rem}
use embedded_usbip.Vhci.{VhciHandle}
use embedded_usbip.Usbip.Server.{
  UsbipClient, UsbipServer, Sockets, Answer, Call, socket, bind, listen, accept, get_flags,
  set_flags, set_option, shutdown, close, Action, ◌>>=◌, ◌>>◌, pure, gets, get_client, set_client,
  call, is_failure, would_block,
}

-- Constants of the target's headers.
abbrev pub o_nonblock : ℕ
o_nonblock = 0x800

abbrev pub o_cloexec : ℕ
o_cloexec = 0x80000

abbrev pub sol_socket : ℕ
sol_socket = 1

abbrev pub sol_tcp : ℕ
sol_tcp = 6

abbrev pub tcp_nodelay : ℕ
tcp_nodelay = 1

abbrev pub tcp_keepintvl : ℕ
tcp_keepintvl = 5

abbrev pub tcp_keepcnt : ℕ
tcp_keepcnt = 6

abbrev pub list_rem : (i : ℕ) → Action (Unit {0})
list_rem i w = elim (linked_list_rem w.list i w.heap) [
  | none ↦ none
  | some (item, l, h) ↦ some (tt, record w { list = l; heap = h })
]

-- `linked_list_push(&client_list, client) == -1`; `node` is the address of the new node.
abbrev pub list_push : (node client : ℕ) → Action Bool
list_push node client w = elim (linked_list_push node w.list client w.heap) [
  | none ↦ none
  | some (pushed l h) ↦ some (false, record w { list = l; heap = h })
  | some no_memory ↦ some (true, w)
]

-- A value that is not 0, as -1.
abbrev pub is_nonzero : Answer → Bool
is_nonzero a = elim a.value [ none ↦ true | some n ↦ not (n == 0) ]

module _ (sockets : Sockets) where
  unfoldable pub sock_stop : (sock : ℕ) → Action (Unit {0})
  sock_stop sock = do call sockets (shutdown sock); call sockets (close sock); pure tt

  unfoldable pub client_stop : (client i : ℕ) → Action (Unit {0})
  unfolding sock_stop linked_list_rem
  client_stop client i = do
    c ← get_client client
    sock_stop c.sock
    list_rem i
    set_client client none

  -- Behind a test that is true the socket is stopped, and the result is -1, which is `true`.
  unfoldable pub stop_if : Bool → (sock : ℕ) → Action Bool → Action Bool
  unfolding sock_stop
  stop_if true sock rest = do sock_stop sock; pure true
  stop_if false sock rest = rest

-- The client with its fifo at the address `client`, or its memory given back.
unfoldable pub add_initialised : (client node : ℕ) → UsbipClient → InitResult → Action Bool
unfolding linked_list_push
add_initialised client node c (failed e) = do set_client client none; pure true
add_initialised client node c (ok q) = do
  set_client client (some (record c { out_fifo = q }))
  refused ← list_push node client
  if refused then (do set_client client none; pure true) else pure false

-- The two allocators return `client`, where the memory holds `fresh`, and `node`. The result is
-- `true` for -1.
unfoldable pub add_client : (client node : ℕ) (fresh : UsbipClient) (sock : ℕ) → Action Bool
unfolding add_initialised stream_fifo_init
add_client client node fresh sock =
    if client == 0
    then pure true
    else add_initialised client node (record fresh { sock = sock })
        (stream_fifo_init (some fresh.out_fifo.buf) 1024)

module _ (sockets : Sockets) where
  -- A call, behind which the socket is stopped if the test of its answer is true.
  unfoldable pub attempt : Call → (test : Answer → Bool) → (sock : ℕ) → Action Bool → Action Bool
  unfolding stop_if
  attempt c test sock rest = do a ← call sockets c; stop_if sockets (test a) sock rest

  -- `fcntl(sock, F_GETFL)`, and `rest` with the flags; the socket is stopped if there are none.
  unfoldable pub with_flags : (sock : ℕ) → (ℕ → Action Bool) → Action Bool
  unfolding stop_if
  with_flags sock rest = do
    flags ← call sockets (get_flags sock)
    elim flags.value [ none ↦ stop_if sockets true sock (pure true) | some f ↦ rest f ]

  -- The options of a new client, each as an `int`.
  unfoldable pub set_options : (sock : ℕ) → Action Bool → Action Bool
  set_options sock rest = attempt (set_option sock sol_tcp tcp_nodelay 1) is_nonzero sock (
      attempt (set_option sock sol_socket tcp_keepintvl 10) is_nonzero sock
        (attempt (set_option sock sol_socket tcp_keepcnt 10) is_nonzero sock rest))

  -- The new client with its socket, or the socket stopped.
  unfoldable pub add_or_stop : (client node : ℕ) (fresh : UsbipClient) (sock : ℕ) → Action Bool
  add_or_stop client node fresh sock = do
    refused ← add_client client node fresh sock
    stop_if sockets refused sock (pure false)

  -- The new client behind the socket `sock`.
  unfoldable pub set_up_client : (client node : ℕ) (fresh : UsbipClient) (sock : ℕ) → Action Bool
  set_up_client client node fresh sock = with_flags sock (λ f.
      attempt (set_flags sock (bit_or (bit_or f o_nonblock) o_cloexec)) is_failure sock
        (set_options sock (add_or_stop client node fresh sock)))

  -- `true` for -1.
  unfoldable pub usbip_accept_new_client : (client node : ℕ) (fresh : UsbipClient) → Action Bool
  usbip_accept_new_client client node fresh = do
    listen_sock ← gets UsbipServer.listen_sock
    a ← call sockets (accept listen_sock)
    elim a.value [
      | some sock ↦ set_up_client client node fresh sock
      | none ↦ if would_block a then pure false else stop_if sockets true listen_sock (pure true)
    ]

  abbrev pub set_handle : VhciHandle → (sock : ℕ) → Action (Unit {0})
  set_handle vhci sock w =
      some (tt, record w { ctx = record (w.ctx) { vhci = vhci; listen_sock = sock } })

  -- The socket that the server listens on. The address family, the port 3240 in network order and
  -- the address 0 are constants.
  unfoldable pub set_up_listener : (sock : ℕ) → Action Bool
  set_up_listener sock = attempt (bind sock 0xA80C) is_failure sock (
      with_flags sock (λ f.
        attempt (set_flags sock (bit_or f o_nonblock)) is_nonzero sock
          (attempt (listen sock) is_nonzero sock (pure false))))

  -- `true` for -1.
  unfoldable pub usbip_server_setup : VhciHandle → Action Bool
  usbip_server_setup vhci = do
    s ← call sockets socket
    elim s.value [
      | none ↦ do set_handle vhci (2 ^ 32 - 1); pure true
      | some sock ↦ do set_handle vhci sock; set_up_listener sock
    ]
