-- ===== src/Usbip/Server/Stopping.antt =====
-- A client whose connection has failed.
use embedded_usbip.Prelude.{
  ℕ, ◌≤◌, ◌<◌, ◌≡◌, ◌≢◌, refl, ◌∙◌, true, none, some, ◌∷◌, ◌==◌, if◌then◌else◌, length, arith,
}
use embedded_usbip.LinkedList.{LinkedList, Heap, linked_list_rem}
use embedded_usbip.LinkedList.Shape.{Cells, item_at, IsList}
use embedded_usbip.LinkedList.Unlink.{without}
use embedded_usbip.LinkedList.Rem.{rem-IsList}
use embedded_usbip.Usbip.Server.{
  ◌>>=◌, UsbipClient, ServerWorld, Sockets, recv, shutdown, close, eagain,
}
use embedded_usbip.Usbip.Server.Settles.{called}
use embedded_usbip.Usbip.Server.Clients.{sock_stop, client_stop}
use embedded_usbip.Usbip.Server.Dispatch.{Waits, nothing_pending}
use embedded_usbip.Usbip.Server.Handle.{usbip_client_handle, receive, recv_failed}

-- The client `c` is gone: its socket was shut down and closed, it is no more in memory, and the entry
-- at the index `i` is no more in the list. The others are as they were.
pub record Stopped (xs : Cells) (client i : ℕ) (c : UsbipClient) (w w' : ServerWorld) : Type 0 where
  pub closed : w'.ctx.calls ≡ close c.sock ∷ shutdown c.sock ∷ w.ctx.calls
  pub list : IsList w'.heap w'.list (without i xs)
  pub gone : w'.ctx.clients client ≡ none
  pub others : (a : ℕ) → a ≢ client → w'.ctx.clients a ≡ w.ctx.clients a

module _ (sockets : Sockets) (w : ServerWorld) (client i : ℕ) (c : UsbipClient) (xs : Cells)
    (in_memory : w.ctx.clients client ≡ some c) (is : IsList w.heap w.list xs) (lt : i < length xs)
    (two : 2 ≤ length xs) where
  -- The world behind the removal.
  abbrev stopped : LinkedList → Heap → ServerWorld
  stopped l h = record {
    list = l;
    heap = h;
    ctx = record (w.ctx) {
      clients = λ a. if a == client then none else w.ctx.clients a;
      calls = close c.sock ∷ shutdown c.sock ∷ w.ctx.calls;
    };
  }

  client_stop_run :
      (item : ℕ) (l : LinkedList) (h : Heap)
      → linked_list_rem w.list i w.heap ≡ some (item, l, h)
      → client_stop sockets client i w ≡ some (tt, stopped l h)
  unfolding client_stop sock_stop
  client_stop_run item l h e = rw (in_memory, e, ◌>>=◌) refl

  pub client_stop-Stopped :
      (w' : ServerWorld) × (client_stop sockets client i w ≡ some (tt, w'))
      × Stopped xs client i c w w'
  client_stop-Stopped =
      let (l, h, e, is', freed) = rem-IsList is i lt two in
      (
        stopped l h,
        client_stop_run (item_at xs i) l h e,
        record {
          closed = refl;
          list = is';
          gone = ground arith;
          others = λ a ne. ground (arith, ne);
        },
      )

-- Of two clients in the list or more, one to which nothing has to be sent and whose `recv` fails,
-- and not because it would block: `usbip_client_handle` returns -1, shuts its socket down and
-- closes it, takes it from memory, and takes the entry at its index, whichever that is, from the
-- list. The other clients keep their order in the list, and are as they were.
pub failed_recv_stops :
    (sockets : Sockets) (w : ServerWorld) (client i : ℕ) (c : UsbipClient) (xs : Cells)
    → Waits w client c
    → IsList w.heap w.list xs
    → i < length xs
    → 2 ≤ length xs
    → (sockets (recv c.sock 8 ∷ w.ctx.calls)).value ≡ none
    → (sockets (recv c.sock 8 ∷ w.ctx.calls)).errno ≢ eagain
    → (w' : ServerWorld) × (usbip_client_handle sockets client i w ≡ some (true, w'))
      × Stopped xs client i c (called (recv c.sock 8) w) w'
unfolding usbip_client_handle receive recv_failed
failed_recv_stops sockets w client i c xs waits is lt two value errno =
    let (w', ends, s) =
      client_stop-Stopped sockets (called (recv c.sock 8) w) client i c xs waits.in_memory is lt
        two in
    (
      w',
      nothing_pending sockets i waits (receive sockets client i)
          ∙ ground (arith, waits.in_memory, value, errno, ends),
      s,
    )
