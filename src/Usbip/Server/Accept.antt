-- ===== src/Usbip/Server/Accept.antt =====
-- What becomes of the socket of a new client.
use embedded_usbip.Prelude.{
  ℕ, ◌<◌, ◌≡◌, ◌≢◌, refl, sym, subst, Bool, true, false, Option, none, some, [], ◌∷◌, ◌++◌, ◌==◌,
  if◌then◌else◌, length, arith, lt-or-le, inl, inr,
}
use embedded_usbip.StreamFifo.{IsValid, contents, stream_fifo_init}
use embedded_usbip.LinkedList.{Heap, LinkedList, linked_list_push, pushed}
use embedded_usbip.LinkedList.Shape.{Cells, has, IsList}
use embedded_usbip.LinkedList.Push.{push-IsList}
use embedded_usbip.Usbip.Server.{UsbipClient, ServerWorld, Sockets, ◌>>=◌, pure, accept}
use embedded_usbip.Usbip.Server.Clients.{
  add_initialised, add_client, add_or_stop, set_up_client, usbip_accept_new_client,
}
use embedded_usbip.Usbip.Server.Settles.{
  SameClients, Settles, called, Settles-step, stop_if-Settles, attempt-Settles, with_flags-Settles,
  set_options-Settles,
}

-- There is one client more, at the end of the list `xs`: it has the socket, and a valid fifo that is
-- empty. The other clients are the same.
pub record Joined (xs : Cells) (client node sock : ℕ) (w w' : ServerWorld) : Type 0 where
  pub joined : UsbipClient
  pub list : IsList w'.heap w'.list (xs ++ ((node, client) ∷ []))
  pub in_memory : w'.ctx.clients client ≡ some joined
  pub sock_of : joined.sock ≡ sock
  pub valid : IsValid joined.out_fifo
  pub empty : length (contents joined.out_fifo) ≡ 0
  pub others : (a : ℕ) → a ≢ client → w'.ctx.clients a ≡ w.ctx.clients a

module _ (client : ℕ) (fresh : UsbipClient) (sock : ℕ) where
  -- The client that `add_client` makes of the new memory.
  abbrev made : UsbipClient
  made = record fresh {
    sock = sock;
    out_fifo = record { buf = fresh.out_fifo.buf; head = 0; tail = 0; buffer_len = 1024 };
  }

  abbrev with_client : Option UsbipClient → ServerWorld → ServerWorld
  with_client c w = record w {
    ctx = record (w.ctx) { clients = λ a. if a == client then c else w.ctx.clients a };
  }

  no_client :
      (node : ℕ) (w : ServerWorld)
      → client ≡ 0
      → add_client client node fresh sock w ≡ some (true, w)
  unfolding add_client
  no_client node w e = ground arith

  no_node :
      (w : ServerWorld)
      → 0 < client
      → add_client client 0 fresh sock w ≡ some (true, with_client none (with_client (some made) w))
  unfolding add_client add_initialised stream_fifo_init linked_list_push
  no_node w pos = ground arith

  node_added :
      (node : ℕ) (w : ServerWorld) (l : LinkedList) (h : Heap)
      → 0 < client
      → linked_list_push node w.list client w.heap ≡ some (pushed l h)
      → add_client client node fresh sock w
        ≡ some (false, record (with_client (some made) w) { list = l; heap = h })
  unfolding add_client add_initialised stream_fifo_init
  node_added node w l h pos e = ground (arith, e)

module _ (client node : ℕ) (fresh : UsbipClient) (sock : ℕ) (w : ServerWorld) (xs : Cells) where
  -- What `add_client` does: with -1 the clients are as before, and with 0 one has joined.
  pub record Adds (w1 : ServerWorld) : Type 0 where
    pub result : Bool
    pub after : ServerWorld
    pub ended : add_client client node fresh sock w1 ≡ some (result, after)
    pub refused : result ≡ true → SameClients w after
    pub joined : result ≡ false → Joined xs client node sock w after

  erased_same :
      (w1 : ServerWorld)
      → SameClients w w1
      → w.ctx.clients client ≡ none
      → SameClients w (
          with_client client fresh sock none
            (with_client client fresh sock (some (made client fresh sock)) w1))
  erased_same w1 same new_client = (same.0, same.1, λ a. ground (arith, same.2 a, new_client))

  -- The memory is new, and so is the node, if there is one.
  add_client-Adds :
      (w1 : ServerWorld)
      → SameClients w w1
      → IsList w.heap w.list xs
      → w.ctx.clients client ≡ none
      → (node ≢ 0 → has node xs ≡ false)
      → length fresh.out_fifo.buf ≡ 1024
      → Adds w1
  add_client-Adds w1 same is new_client new_node storage = elim (lt-or-le 0 client) [
    | inr null ↦ record {
      result = true;
      after = w1;
      ended = no_client client fresh sock node w1 (omega arith);
      refused = λ e. same;
      joined = λ e. absurd (cc);
    }
    | inl pos ↦ elim (lt-or-le 0 node) [
      | inr null ↦ record {
        result = true;
        after =
            with_client client fresh sock none
              (with_client client fresh sock (some (made client fresh sock)) w1);
        ended =
            subst
              (λ n.
                add_client client n fresh sock w1
                ≡ some (
                  true,
                  with_client client fresh sock none
                      (with_client client fresh sock (some (made client fresh sock)) w1),
                ))
              {x = 0} {y = node} (omega arith) (no_node client fresh sock w1 pos);
        refused = λ e. erased_same w1 same new_client;
        joined = λ e. absurd (cc);
      }
      | inl pos' ↦
          let (l, h, pushed_list, is') =
            push-IsList w1.heap w1.list xs node client
              (subst (λ g. IsList g w1.list xs) (sym same.1)
                (subst (λ k. IsList w.heap k xs) (sym same.0) is))
              (omega arith) (new_node (omega arith)) in
          record {
            result = false;
            after = record (with_client client fresh sock (some (made client fresh sock)) w1) {
              list = l;
              heap = h;
            };
            ended = node_added client fresh sock node w1 l h pos pushed_list;
            refused = λ e. absurd (cc);
            joined = λ e. record {
              joined = made client fresh sock;
              list = is';
              in_memory = ground arith;
              sock_of = refl;
              valid = record {
                storage = storage;
                small = omega arith;
                head_in = omega arith;
                tail_in = omega arith;
              };
              empty = ground arith;
              others = λ a ne. ground (arith, ne, same.2 a);
            };
          }
    ]
  ]

  add_or_stop-Settles :
      (sockets : Sockets) (w1 : ServerWorld)
      → SameClients w w1
      → Adds w1
      → Settles
          (SameClients w)
          sock
          (Joined xs client node sock w)
          (add_or_stop sockets client node fresh sock)
          w1
  unfolding add_or_stop
  add_or_stop-Settles sockets w1 same a =
      Settles-step sockets (SameClients w) (λ c w1 same. same) sock (Joined xs client node sock w)
        (rw (a.ended, ◌>>=◌) refl)
        (stop_if-Settles sockets (SameClients w) (λ c w1 same. same) sock
          (Joined xs client node sock w) a.result (pure false) a.after a.refused
          (λ e. record {
            result = false;
            after = a.after;
            ended = refl;
            stopped = λ e'. absurd (cc);
            went_on = λ e'. a.joined e;
          }))

  set_up_client-Settles :
      (sockets : Sockets) (w1 : ServerWorld)
      → SameClients w w1
      → ((w2 : ServerWorld) → SameClients w w2 → Adds w2)
      → Settles
          (SameClients w)
          sock
          (Joined xs client node sock w)
          (set_up_client sockets client node fresh sock)
          w1
  unfolding set_up_client
  set_up_client-Settles sockets w1 same adds =
      with_flags-Settles sockets (SameClients w) (λ c w1 same. same) sock
        (Joined xs client node sock w) w1 same
        (λ f w2 same2.
          attempt-Settles sockets (SameClients w) (λ c w1 same. same) sock
            (Joined xs client node sock w) _ _ _ w2 same2
            (λ w3 same3.
              set_options-Settles sockets (SameClients w) (λ c w1 same. same) sock
                (Joined xs client node sock w) _ w3 same3
                (λ w4 same4. add_or_stop-Settles sockets w4 same4 (adds w4 same4))))

-- When `accept` gives a socket, the new memory and the new node are not in use, and the memory has a
-- buffer of 1024 bytes, `usbip_accept_new_client` ends. If it returns -1, the last two calls shut this
-- socket down and close it, and the clients are as before. If it returns 0, there is one client more,
-- at the end of the list, with this socket and a valid empty fifo, and the other clients are the same.
pub usbip_accept_new_client-Settles :
    (sockets : Sockets) (client node : ℕ) (fresh : UsbipClient) (sock : ℕ) (w : ServerWorld)
    (xs : Cells)
    → (sockets (accept w.ctx.listen_sock ∷ w.ctx.calls)).value ≡ some sock
    → IsList w.heap w.list xs
    → w.ctx.clients client ≡ none
    → (node ≢ 0 → has node xs ≡ false)
    → length fresh.out_fifo.buf ≡ 1024
    → Settles
        (SameClients w)
        sock
        (Joined xs client node sock w)
        (usbip_accept_new_client sockets client node fresh)
        w
unfolding usbip_accept_new_client
usbip_accept_new_client-Settles sockets client node fresh sock w xs answer is new_client new_node
      storage =
    Settles-step sockets (SameClients w) (λ c w1 same. same) sock (Joined xs client node sock w)
      {w2 = called (accept w.ctx.listen_sock) w} (rw answer refl)
      (set_up_client-Settles client node fresh sock w xs sockets _ (refl, refl, λ a. refl)
        (λ w2 same.
          add_client-Adds client node fresh sock w xs w2 same is new_client new_node storage))
