-- ===== src/Main/Served.antt =====
-- What clients of the program find, after any rounds of its server.
use embedded_usbip.Prelude.{
  ℕ, refl, drop, replicate, ◌++◌, if◌then◌else◌, ◌≡◌, ◌≢◌, subst, ◌∙◌, Bool, true, false, Option,
  none, some, List, [], ◌∷◌, arith,
}
use embedded_usbip.StreamFifo.{IsValid}
use embedded_usbip.LinkedList.Kept.{HoldsBehind}
use embedded_usbip.Usbip.Server.{UsbipClient, ServerWorld, Sockets, recv, ◌>>=◌, ◌>>◌, pure}
use embedded_usbip.Usbip.Server.Handle.{usbip_client_handle}
use embedded_usbip.Usbip.Server.Settles.{called}
use embedded_usbip.Usbip.Server.Dispatch.{Waits, request_answered}
use embedded_usbip.Usbip.Server.Misread.{first_devlist_faults}
use embedded_usbip.Main.{rounds, main}
use embedded_usbip.Main.Exported.{Serves, set_up-Serves, rounds-Serves}

module _ (sockets : Sockets) (vdev node address : ℕ) (nv : vdev ≢ 0) (nn : node ≢ 0)
    (na : address ≢ 0) where
  main_kept :
      (later : List (ℕ × ℕ × UsbipClient)) (w : ServerWorld)
      → HoldsBehind (Serves vdev node) (main sockets vdev node address later w)
  unfolding main
  main_kept later w =
      let (result, w', ends, s) = set_up-Serves sockets vdev node address w nv nn na in
      rw (ends, ◌>>=◌)
        (elim result
          as (λ b.
            HoldsBehind (Serves vdev node)
              ((if b then pure true else (do rounds sockets later; pure false)) w')) [
                | true ↦ s
                | false ↦
                    after (rounds sockets later w') (rounds-Serves sockets vdev node later w' s)
              ])
    where
      after :
          (r : Option (Unit {0} × ServerWorld))
          → HoldsBehind (Serves vdev node) r
          → HoldsBehind
              (Serves vdev node)
              (elim r [ none ↦ none | some (u, w'') ↦ some (false, w'') ])
      after none h = tt
      after (some (u, w'')) h = h

  -- Whenever `main` comes through any number of rounds without a fault, or ends because it could
  -- not be set up, and whatever the socket library answered and the clients sent until then: the
  -- host controller exports `dev1`, with the bus 0 and the number 0, and no other device. The three
  -- addresses are not NULL.
  pub main-Serves :
      (later : List (ℕ × ℕ × UsbipClient)) (w : ServerWorld) (result : Bool) (w' : ServerWorld)
      → main sockets vdev node address later w ≡ some (result, w')
      → Serves vdev node w'
  main-Serves later w result w' e = subst (HoldsBehind (Serves vdev node)) e (main_kept later w)

  -- After a run of `main` without a fault: a client to which nothing has to be sent, with a valid
  -- fifo whose head and tail are at the start of its buffer and whose bytes 12 to 31 are 0, and
  -- whose request for the list of devices has come, brings the server down. `fill_devlist` reads
  -- the header of the reply and these bytes as a fifo with the tail NULL, for which `remaining`
  -- admits the path, and copies the path there: a round of `usbip_client_handle` faults. The three
  -- addresses are not NULL.
  pub main_devlist_faults :
      (later : List (ℕ × ℕ × UsbipClient)) (w : ServerWorld) (result : Bool) (w' : ServerWorld)
      → main sockets vdev node address later w ≡ some (result, w')
      → (client i : ℕ) (c : UsbipClient) (n s0 s1 s2 s3 : ℕ) (back : List ℕ) → Waits w' client c
      → IsValid c.out_fifo
      → c.out_fifo.head ≡ 0
      → c.out_fifo.tail ≡ 0
      → drop 12 c.out_fifo.buf ≡ replicate 20 0 ++ back
      → (sockets (recv c.sock 8 ∷ w'.ctx.calls)).value ≡ some n
      → (sockets (recv c.sock 8 ∷ w'.ctx.calls)).bytes
        ≡ 1 ∷ 0x11 ∷ 0x80 ∷ 5 ∷ s0 ∷ s1 ∷ s2 ∷ s3 ∷ []
      → usbip_client_handle sockets client i w' ≡ none
  main_devlist_faults later w result w' e client i c n s0 s1 s2 s3 back waits v head tail zeros
        value bytes =
      request_answered sockets i waits n value s0 s1 s2 s3 5 (omega arith) bytes
      ∙ first_devlist_faults sockets (called (recv c.sock 8) w') client i c waits.in_memory
          ((node, vdev) ∷ []) back v head tail zeros (main-Serves later w result w' e).list refl
