-- ===== src/Usbip/Server/Idle.antt =====
-- A round of the server in which nothing arrives.
use embedded_usbip.Prelude.{
  ℕ, suc, ◌<◌, ◌≡◌, refl, ap, sym, ◌∙◌, false, Option, none, some, List, ◌∷◌, length, arith,
}
use embedded_usbip.LinkedList.{linked_list_iter}
use embedded_usbip.LinkedList.Shape.{Cells, item_at, IsList}
use embedded_usbip.LinkedList.Iter.{fold_up, iter-fold_up}
use embedded_usbip.Usbip.Server.{
  UsbipClient, UsbipServer, ServerWorld, Sockets, Call, accept, recv, eagain,
}
use embedded_usbip.Usbip.Server.Settles.{called}
use embedded_usbip.Usbip.Server.Clients.{usbip_accept_new_client}
use embedded_usbip.Usbip.Server.Dispatch.{Waits, nothing_pending}
use embedded_usbip.Usbip.Server.Handle.{
  usbip_client_handle, receive, recv_failed, usbip_server_handle_once,
}

abbrev pub sock_of : Option UsbipClient → ℕ
sock_of none = 0
sock_of (some c) = c.sock

-- A client is asked for eight bytes.
abbrev pub poll : (client i : ℕ) → UsbipServer → UsbipServer
poll client i s = record s { calls = recv (sock_of (s.clients client)) 8 ∷ s.calls }

module _ (sockets : Sockets)
    (blocked : (cs : List Call) → ((sockets cs).value ≡ none) × ((sockets cs).errno ≡ eagain)) where
  -- No connection waits.
  none_accepted :
      (client node : ℕ) (fresh : UsbipClient) (w : ServerWorld)
      → usbip_accept_new_client sockets client node fresh w
        ≡ some (false, called (accept w.ctx.listen_sock) w)
  unfolding usbip_accept_new_client
  none_accepted client node fresh w =
      ground (arith, blocked (accept w.ctx.listen_sock ∷ w.ctx.calls))

  client_polled :
      (client i : ℕ) (c : UsbipClient) (w : ServerWorld)
      → Waits w client c
      → usbip_client_handle sockets client i w ≡ some (false, called (recv c.sock 8) w)
  unfolding usbip_client_handle receive recv_failed
  client_polled client i c w waits =
      nothing_pending sockets i waits (receive sockets client i)
      ∙ ground (arith, waits.in_memory, blocked (recv c.sock 8 ∷ w.ctx.calls))

  handle_once_run :
      (client node : ℕ) (fresh : UsbipClient) (w w1 w2 : ServerWorld)
      → usbip_accept_new_client sockets client node fresh w ≡ some (false, w1)
      → linked_list_iter (suc w1.list.size) (usbip_client_handle sockets) w1 ≡ some w2
      → usbip_server_handle_once sockets client node fresh w ≡ some (false, w2)
  unfolding usbip_server_handle_once
  handle_once_run client node fresh w w1 w2 accepted iterated = ground (arith, accepted, iterated)

  -- When every call would block, and nothing has to be sent to any client, a round of the server ends
  -- without a fault, and returns 0. It asks for a connection and then each client for eight bytes, in
  -- the order of the list and once, and changes nothing.
  pub handle_once_idle :
      (client node : ℕ) (fresh : UsbipClient) (w : ServerWorld) (xs : Cells)
      → IsList w.heap w.list xs
      → ((i : ℕ) → i < length xs → (c : UsbipClient) × Waits w (item_at xs i) c)
      → usbip_server_handle_once sockets client node fresh w
        ≡ some (
          false,
          record w {
            ctx =
                fold_up poll xs
                  (length xs)
                  0
                  (record (w.ctx) { calls = accept w.ctx.listen_sock ∷ w.ctx.calls });
          },
        )
  handle_once_idle client node fresh w xs is waits =
      handle_once_run client node fresh w _ _ (none_accepted client node fresh w) (
        ap
          (λ n.
            linked_list_iter (suc n) (usbip_client_handle sockets)
              (called (accept w.ctx.listen_sock) w))
          is.size
        ∙ iter-fold_up poll (usbip_client_handle sockets) xs (λ s. s.clients ≡ w.ctx.clients)
            (λ item i s e. e) (called (accept w.ctx.listen_sock) w) is
            (λ i s lt e. polled i s (waits i lt) e) refl)
    where
      polled :
          (i : ℕ) (s : UsbipServer)
          → ((c : UsbipClient) × Waits w (item_at xs i) c)
          → s.clients ≡ w.ctx.clients
          → usbip_client_handle sockets (item_at xs i) i (record w { ctx = s })
            ≡ some (false, record w { ctx = poll (item_at xs i) i s })
      polled i s (c, waits) e =
          client_polled (item_at xs i) i c (record w { ctx = s })
            (record {
              in_memory = ap (λ f. f (item_at xs i)) e ∙ waits.in_memory;
              nothing = waits.nothing;
            })
          ∙ ap (λ o. some (false, called (recv (sock_of o) 8) (record w { ctx = s })))
              (sym (ap (λ f. f (item_at xs i)) e ∙ waits.in_memory))
