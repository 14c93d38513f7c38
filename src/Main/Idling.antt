-- ===== src/Main/Idling.antt =====
-- The loop of the program while nothing arrives.
use embedded_usbip.Prelude.{
  ℕ, zero, suc, ◌<◌, ◌≡◌, refl, ap, ◌∙◌, none, some, List, [], ◌∷◌, length,
}
use embedded_usbip.LinkedList.Shape.{Cells, item_at, IsList}
use embedded_usbip.LinkedList.Iter.{fold_up}
use embedded_usbip.Usbip.Server.{
  UsbipClient, UsbipServer, ServerWorld, Sockets, Call, accept, ◌>>=◌, eagain,
}
use embedded_usbip.Usbip.Server.Dispatch.{Waits}
use embedded_usbip.Usbip.Server.Idle.{poll, handle_once_idle}
use embedded_usbip.Main.{rounds}

polls-clients :
    (xs : Cells) (k j : ℕ) (s : UsbipServer) → (fold_up poll xs k j s).clients ≡ s.clients
unfolding fold_up
polls-clients xs zero j s = refl
polls-clients xs (suc k) j s = polls-clients xs k (suc j) (poll (item_at xs j) j s)

-- There is nothing to send to any client of the list.
pub record Idles (xs : Cells) (w : ServerWorld) : Type 0 where
  pub list : IsList w.heap w.list xs
  pub waits : (i : ℕ) → i < length xs → (c : UsbipClient) × Waits w (item_at xs i) c

module _ (sockets : Sockets)
    (blocked : (cs : List Call) → ((sockets cs).value ≡ none) × ((sockets cs).errno ≡ eagain))
    (xs : Cells) where
  -- While every call would block, and nothing has to be sent to any client, any number of rounds of
  -- the loop ends without a fault, and leaves the clients and their list as they were.
  pub rounds_idle :
      (later : List (ℕ × ℕ × UsbipClient)) (w : ServerWorld)
      → Idles xs w
      → (w' : ServerWorld) × (rounds sockets later w ≡ some (tt, w'))
        × (w'.ctx.clients ≡ w.ctx.clients)
        × Idles xs w'
  unfolding rounds
  rounds_idle [] w idle = (w, refl, refl, idle)
  rounds_idle ((client, node, fresh) ∷ later) w idle =
      let ran = handle_once_idle sockets blocked client node fresh w xs idle.list idle.waits in
      let same =
        polls-clients xs (length xs) 0
          (record (w.ctx) { calls = accept w.ctx.listen_sock ∷ w.ctx.calls }) in
      let (w'', ends, same', idle') = rounds_idle later (polled w) (record {
        list = idle.list;
        waits = λ i lt. still (item_at xs i) (idle.waits i lt) same;
      }) in
      (w'', rw (ran, ◌>>=◌) ends, same' ∙ same, idle')
    where
      polled : ServerWorld → ServerWorld
      polled w = record w {
        ctx =
            fold_up poll xs (length xs) 0
              (record (w.ctx) { calls = accept w.ctx.listen_sock ∷ w.ctx.calls });
      }

      still :
          (item : ℕ)
          → ((c : UsbipClient) × Waits w item c)
          → (polled w).ctx.clients ≡ w.ctx.clients
          → (c : UsbipClient) × Waits (polled w) item c
      still item (c, waits) e =
          (c, record { in_memory = ap (λ f. f item) e ∙ waits.in_memory; nothing = waits.nothing })
