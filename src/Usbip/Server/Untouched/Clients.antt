-- ===== src/Usbip/Server/Untouched/Clients.antt =====
-- The functions by which clients come and go leave the host controller and the other clients alone.
use embedded_usbip.Prelude.{ℕ, ◌==◌, Bool, true, false, none, some}
use embedded_usbip.StreamFifo.{InitResult, ok, failed, stream_fifo_init}
use embedded_usbip.Usbip.Server.{
  UsbipClient, UsbipServer, Sockets, Answer, Call, accept, get_flags, shutdown, close, Action,
  would_block, pure, set_client, ◌>>◌,
}
use embedded_usbip.Usbip.Server.Untouched.{
  Keeps, bind-Keeps, pure-Keeps, gets-Keeps, get_client-Keeps, set_client-Keeps, call-Keeps,
  if-Keeps, option-Keeps, list_rem-Keeps, list_push-Keeps,
}
use embedded_usbip.Usbip.Server.Clients.{
  sock_stop, client_stop, stop_if, add_initialised, add_client, attempt, with_flags, set_options,
  add_or_stop, set_up_client, usbip_accept_new_client, set_up_listener,
}

module _ (sockets : Sockets) {client : ℕ} where
  sock_stop-Keeps : (sock : ℕ) → Keeps client (sock_stop sockets sock)
  unfolding sock_stop
  sock_stop-Keeps sock =
      bind-Keeps (call-Keeps sockets (shutdown sock))
        (λ a. bind-Keeps (call-Keeps sockets (close sock)) (λ b. pure-Keeps tt))

  pub client_stop-Keeps : (i : ℕ) → Keeps client (client_stop sockets client i)
  unfolding client_stop
  client_stop-Keeps i = bind-Keeps (get_client-Keeps client) (λ c.
      bind-Keeps (sock_stop-Keeps c.sock)
        (λ u. bind-Keeps (list_rem-Keeps i) (λ u. set_client-Keeps none)))

  -- The client is stopped, and the result is -1.
  pub stopped-Keeps : (i : ℕ) → Keeps client (client_stop sockets client i >> pure true)
  stopped-Keeps i = bind-Keeps (client_stop-Keeps i) (λ u. pure-Keeps true)

  stop_if-Keeps :
      (b : Bool) (sock : ℕ) {rest : Action Bool}
      → Keeps client rest
      → Keeps client (stop_if sockets b sock rest)
  unfolding stop_if
  stop_if-Keeps true sock k = bind-Keeps (sock_stop-Keeps sock) (λ u. pure-Keeps true)
  stop_if-Keeps false sock k = k

  attempt-Keeps :
      (c : Call) (test : Answer → Bool) (sock : ℕ) {rest : Action Bool}
      → Keeps client rest
      → Keeps client (attempt sockets c test sock rest)
  unfolding attempt
  attempt-Keeps c test sock k =
      bind-Keeps (call-Keeps sockets c) (λ a. stop_if-Keeps (test a) sock k)

  with_flags-Keeps :
      (sock : ℕ) {rest : ℕ → Action Bool}
      → ((f : ℕ) → Keeps client (rest f))
      → Keeps client (with_flags sockets sock rest)
  unfolding with_flags
  with_flags-Keeps sock k =
      bind-Keeps (call-Keeps sockets (get_flags sock))
        (λ flags. option-Keeps flags.value (stop_if-Keeps true sock (pure-Keeps true)) k)

  set_options-Keeps :
      (sock : ℕ) {rest : Action Bool}
      → Keeps client rest
      → Keeps client (set_options sockets sock rest)
  unfolding set_options
  set_options-Keeps sock k =
      attempt-Keeps _ _ sock (attempt-Keeps _ _ sock (attempt-Keeps _ _ sock k))

  given_up : Keeps client (set_client client none >> pure true)
  given_up = bind-Keeps (set_client-Keeps none) (λ u. pure-Keeps true)

  add_initialised-Keeps :
      (node : ℕ) (c : UsbipClient) (r : InitResult) → Keeps client (add_initialised client node c r)
  unfolding add_initialised
  add_initialised-Keeps node c (failed e) = given_up
  add_initialised-Keeps node c (ok q) =
      bind-Keeps (set_client-Keeps (some (record c { out_fifo = q }))) (λ u.
        bind-Keeps (list_push-Keeps node) (λ refused. if-Keeps refused given_up (pure-Keeps false)))

  add_client-Keeps :
      (node : ℕ) (fresh : UsbipClient) (sock : ℕ) → Keeps client (add_client client node fresh sock)
  unfolding add_client
  add_client-Keeps node fresh sock = if-Keeps (client == 0) (pure-Keeps true) (
      add_initialised-Keeps node (record fresh { sock = sock })
        (stream_fifo_init (some fresh.out_fifo.buf) 1024))

  set_up_client-Keeps :
      (node : ℕ) (fresh : UsbipClient) (sock : ℕ)
      → Keeps client (set_up_client sockets client node fresh sock)
  unfolding set_up_client add_or_stop
  set_up_client-Keeps node fresh sock = with_flags-Keeps sock (λ f. attempt-Keeps _ _ sock (
      set_options-Keeps sock (
        bind-Keeps (add_client-Keeps node fresh sock)
          (λ refused. stop_if-Keeps refused sock (pure-Keeps false)))))

  -- The new connection changes no client that was there before.
  pub usbip_accept_new_client-Keeps :
      (node : ℕ) (fresh : UsbipClient)
      → Keeps client (usbip_accept_new_client sockets client node fresh)
  unfolding usbip_accept_new_client
  usbip_accept_new_client-Keeps node fresh =
      bind-Keeps (gets-Keeps UsbipServer.listen_sock) (λ listen_sock.
        bind-Keeps (call-Keeps sockets (accept listen_sock)) (λ a.
          option-Keeps a.value
            (if-Keeps (would_block a) (pure-Keeps false)
              (stop_if-Keeps true listen_sock (pure-Keeps true)))
            (λ sock. set_up_client-Keeps node fresh sock)))

  pub set_up_listener-Keeps : (sock : ℕ) → Keeps client (set_up_listener sockets sock)
  unfolding set_up_listener
  set_up_listener-Keeps sock = attempt-Keeps _ _ sock (
      with_flags-Keeps sock
        (λ f. attempt-Keeps _ _ sock (attempt-Keeps _ _ sock (pure-Keeps false))))
