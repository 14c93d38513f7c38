-- ===== src/Usbip/Server/Listen.antt =====
-- What becomes of the socket that the server listens on.
use embedded_usbip.Prelude.{ℕ, ◌≡◌, refl, false, some, List, ◌∷◌}
use embedded_usbip.Vhci.{VhciHandle}
use embedded_usbip.Usbip.Server.{ServerWorld, Sockets, pure, Call, listen, socket}
use embedded_usbip.Usbip.Server.Clients.{is_nonzero, attempt, set_up_listener, usbip_server_setup}
use embedded_usbip.Usbip.Server.Settles.{
  SameClients, Settles, called, Settles-step, stop_if-Settles, attempt-Settles, with_flags-Settles,
}

-- The server is set up: `listen` was called last, and the server has the socket and the controller.
abbrev pub Listens : (w : ServerWorld) (vhci : VhciHandle) (sock : ℕ) → ServerWorld → Type 0
Listens w vhci sock w' = (w'.ctx.listen_sock ≡ sock) × (w'.ctx.vhci ≡ vhci) × SameClients w w'

module _ (sockets : Sockets) (w : ServerWorld) (vhci : VhciHandle) (sock : ℕ) where
  abbrev pub Ready : ServerWorld → Type 0
  Ready w' = Listens w vhci sock w' × ((cs : List Call) × (w'.ctx.calls ≡ listen sock ∷ cs))

  keeps_Listens :
      (c : Call) (w1 : ServerWorld) → Listens w vhci sock w1 → Listens w vhci sock (called c w1)
  keeps_Listens c w1 l = l

  listen-Settles :
      (w1 : ServerWorld)
      → Listens w vhci sock w1
      → Settles
          (Listens w vhci sock)
          sock
          Ready
          (attempt sockets (listen sock) is_nonzero sock (pure false))
          w1
  unfolding attempt
  listen-Settles w1 l =
      Settles-step sockets (Listens w vhci sock) keeps_Listens sock Ready
        {w2 = called (listen sock) w1} refl
        (stop_if-Settles sockets (Listens w vhci sock) keeps_Listens sock Ready
          (is_nonzero (sockets (listen sock ∷ w1.ctx.calls))) (pure false) (called (listen sock) w1)
          (λ e. l)
          (λ e. record {
            result = false;
            after = called (listen sock) w1;
            ended = refl;
            stopped = λ e'. absurd (cc);
            went_on = λ e'. (l, (w1.ctx.calls, refl));
          }))

  set_up_listener-Settles :
      (w1 : ServerWorld)
      → Listens w vhci sock w1
      → Settles (Listens w vhci sock) sock Ready (set_up_listener sockets sock) w1
  unfolding set_up_listener
  set_up_listener-Settles w1 l =
      attempt-Settles sockets (Listens w vhci sock) keeps_Listens sock Ready _ _ _ w1 l (λ w2 l2.
        with_flags-Settles sockets (Listens w vhci sock) keeps_Listens sock Ready w2 l2 (λ f w3 l3.
          attempt-Settles sockets (Listens w vhci sock) keeps_Listens sock Ready _ _ _ w3 l3
            listen-Settles))

-- When `socket` gives a socket, `usbip_server_setup` ends, and leaves the clients as they were. If it
-- returns -1, the last two calls shut this socket down and close it. If it returns 0, the last call is
-- `listen` on this socket, and the server has the socket and the host controller.
pub usbip_server_setup-Settles :
    (sockets : Sockets) (vhci : VhciHandle) (sock : ℕ) (w : ServerWorld)
    → (sockets (socket ∷ w.ctx.calls)).value ≡ some sock
    → Settles
        (Listens w vhci sock)
        sock
        (Ready sockets w vhci sock)
        (usbip_server_setup sockets vhci)
        w
unfolding usbip_server_setup
usbip_server_setup-Settles sockets vhci sock w answer =
    Settles-step sockets (Listens w vhci sock) (λ c w1 l. l) sock (Ready sockets w vhci sock)
      {w2 = record w {
        ctx = record (w.ctx) { vhci = vhci; listen_sock = sock; calls = socket ∷ w.ctx.calls };
      }}
      (rw answer refl)
      (set_up_listener-Settles sockets w vhci sock _ (refl, refl, (refl, refl, λ a. refl)))
