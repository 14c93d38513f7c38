-- ===== src/Main/Exported.antt =====
-- What the program exports, before and after any rounds of its server.
use embedded_usbip.Prelude.{
  ℕ, ◌-◌, ◌^◌, ◌≡◌, ◌≢◌, refl, sym, ap, subst, ◌∙◌, inl, inr, Bool, true, none, some, Option-cases,
  List, [], ◌∷◌, arith,
}
use embedded_usbip.LinkedList.{write, linked_list_push, linked_list_init}
use embedded_usbip.LinkedList.Kept.{HoldsBehind}
use embedded_usbip.LinkedList.Shape.{IsList}
use embedded_usbip.UsbDev.{UsbDev}
use embedded_usbip.Vhci.{
  VhciHandle, Store, update, vhci_init, next_numbers, named, registered, register_pushed,
  register_numbered, vhci_register_dev,
}
use embedded_usbip.Vhci.Devices.{device_at}
use embedded_usbip.Usbip.Server.{UsbipClient, ServerWorld, Sockets, socket, ◌>>=◌}
use embedded_usbip.Usbip.Server.Clients.{set_up_listener, usbip_server_setup}
use embedded_usbip.Usbip.Server.Listen.{usbip_server_setup-Settles}
use embedded_usbip.Usbip.Server.Handle.{usbip_server_handle_once}
use embedded_usbip.Usbip.Server.Untouched.{SameController, Untouched, Behind}
use embedded_usbip.Usbip.Server.Untouched.Clients.{set_up_listener-Keeps}
use embedded_usbip.Usbip.Server.Untouched.Rounds.{usbip_server_handle_once-SameController}
use embedded_usbip.Main.{dev1, serve, set_up, rounds}

-- `dev1` with its numbers.
abbrev pub numbered : UsbDev
numbered = record dev1 { devnum = 0; busnum = 0 }

-- The host controller exports `dev1` and nothing else, with the numbers 0 and 0.
pub record Serves (vdev node : ℕ) (w : ServerWorld) : Type 0 where
  pub list : IsList w.ctx.store.heap w.ctx.vhci.devices ((node, vdev) ∷ [])
  pub device : device_at w.ctx.store vdev ≡ some (named numbered)

-- The store and the handle behind the registration.
abbrev exported_store : Store → (vdev node address : ℕ) → Store
exported_store s vdev node address = record {
  heap = write s.heap node (some (record { item = vdev; next = 0; prev = 0 }));
  vdevs = update s.vdevs vdev (some address);
  devs =
      update (update (update s.devs address (some dev1)) address (some numbered)) address
        (some (named numbered));
}

abbrev exported_handle : (node : ℕ) → VhciHandle
exported_handle node = record {
  devices = record { size = 1; first = node; last = node };
  last_busnum = 0;
  last_devnum = 1;
}

register_run :
    (s : Store) (vdev node address : ℕ)
    → vdev ≢ 0
    → node ≢ 0
    → address ≢ 0
    → vhci_register_dev vdev node
        (some (record {
          devices = record { size = 0; first = 0; last = 0 };
          last_busnum = 0;
          last_devnum = 0;
        }))
        address
        (record s { devs = update s.devs address (some dev1) })
      ≡ some (registered (exported_handle node) (exported_store s vdev node address))
unfolding vhci_register_dev register_numbered register_pushed next_numbers linked_list_push update
register_run s vdev node address nv nn na = ground (arith, nv, nn, na)

exported_device :
    (s : Store) (vdev node address : ℕ)
    → vdev ≢ 0
    → address ≢ 0
    → device_at (exported_store s vdev node address) vdev ≡ some (named numbered)
unfolding device_at update
exported_device s vdev node address nv na = ground (arith, nv, na)

exported_list :
    (s : Store) (vdev node address : ℕ)
    → node ≢ 0
    → IsList
        (exported_store s vdev node address).heap
        (exported_handle node).devices
        ((node, vdev) ∷ [])
unfolding write
exported_list s vdev node address nn = record {
  linked = (ground arith, nn, refl, tt);
  size = refl;
  first = λ z. refl;
  last = λ z. refl;
}

module _ (sockets : Sockets) (vhci : VhciHandle) (w : ServerWorld) where
  -- The server has this host controller, and the devices are the same.
  record SetUp (w' : ServerWorld) : Type 0 where
    same_vhci : w'.ctx.vhci ≡ vhci
    same_store : w'.ctx.store ≡ w.ctx.store

  -- The world behind `socket`.
  abbrev opened : (sock : ℕ) → ServerWorld
  opened sock = record w {
    ctx = record (w.ctx) { vhci = vhci; listen_sock = sock; calls = socket ∷ w.ctx.calls };
  }

  listener-SetUp :
      (sock : ℕ) (result : Bool) (w' : ServerWorld)
      → set_up_listener sockets sock (opened sock) ≡ some (result, w')
      → SetUp w'
  listener-SetUp sock result w' e =
      let u =
        subst (Behind (Untouched 0 (opened sock))) e
          ((set_up_listener-Keeps sockets sock).kept (opened sock)) in
      record { same_vhci = u.controller.vhci; same_store = u.controller.store }

  setup_ends :
      (result : Bool) × (w' : ServerWorld) × (usbip_server_setup sockets vhci w ≡ some (result, w'))
      × SetUp w'
  unfolding usbip_server_setup
  setup_ends = elim (Option-cases (sockets (socket ∷ w.ctx.calls)).value) [
    | inl e ↦ (
      true,
      opened (2 ^ 32 - 1),
      rw (e, ◌>>=◌) refl,
      record { same_vhci = refl; same_store = refl },
    )
    | inr (sock, e) ↦
        let s = usbip_server_setup-Settles sockets vhci sock w e in
        (
          s.result,
          s.after,
          s.ended,
          listener-SetUp sock s.result s.after
              (subst (λ o. o ≡ some (s.result, s.after)) (rw (e, ◌>>=◌) refl) s.ended),
        )
  ]

module _ (sockets : Sockets) (vdev node address : ℕ) (w : ServerWorld) where
  -- The world behind the registration.
  abbrev with_dev1 : ServerWorld
  with_dev1 = record w {
    ctx = record (w.ctx) { store = exported_store w.ctx.store vdev node address };
  }

  set_up_run :
      vdev ≢ 0
      → node ≢ 0
      → address ≢ 0
      → set_up sockets vdev node address w
        ≡ usbip_server_setup sockets (exported_handle node) with_dev1
  unfolding set_up serve vhci_init linked_list_init
  set_up_run nv nn na =
      ap (λ o. elim o [ none ↦ none | some r ↦ serve sockets r w ])
        (register_run w.ctx.store vdev node address nv nn na)

  -- With the three addresses not NULL, `main` comes to its loop or to its end, whatever the socket
  -- library answers, and the host controller then exports `dev1`, with the bus 0 and the number 0, and
  -- no other device.
  pub set_up-Serves :
      vdev ≢ 0
      → node ≢ 0
      → address ≢ 0
      → (result : Bool) × (w' : ServerWorld) × (set_up sockets vdev node address w
          ≡ some (result, w'))
        × Serves vdev node w'
  set_up-Serves nv nn na =
      let (result, w', ends, s) = setup_ends sockets (exported_handle node) with_dev1 in
      (
        result,
        w',
        set_up_run nv nn na ∙ ends,
        record {
          list =
              subst (λ s. IsList s.heap w'.ctx.vhci.devices ((node, vdev) ∷ [])) (sym s.same_store)
                (subst
                  (λ h.
                    IsList (exported_store w.ctx.store vdev node address).heap h.devices
                      ((node, vdev) ∷ []))
                  (sym s.same_vhci) (exported_list w.ctx.store vdev node address nn));
          device =
              ap (λ st. device_at st vdev) s.same_store
              ∙ exported_device w.ctx.store vdev node address nv na;
        },
      )

-- `Serves` speaks of the host controller alone.
Serves-SameController :
    {vdev node : ℕ} {w w' : ServerWorld}
    → Serves vdev node w
    → SameController w w'
    → Serves vdev node w'
Serves-SameController {vdev} {node} {w} {w'} s same = record {
  list =
      subst (λ st. IsList st.heap w'.ctx.vhci.devices ((node, vdev) ∷ [])) (sym same.store)
        (subst (λ h. IsList w.ctx.store.heap h.devices ((node, vdev) ∷ [])) (sym same.vhci) s.list);
  device = ap (λ st. device_at st vdev) same.store ∙ s.device;
}

module _ (sockets : Sockets) (vdev node : ℕ) where
  pub rounds-Serves :
      (later : List (ℕ × ℕ × UsbipClient)) (w : ServerWorld)
      → Serves vdev node w
      → HoldsBehind (Serves vdev node) (rounds sockets later w)
  unfolding rounds
  rounds-Serves [] w s = s
  rounds-Serves ((client, fresh_node, fresh) ∷ later) w s =
      elim (Option-cases (usbip_server_handle_once sockets client fresh_node fresh w)) [
        | inl e ↦ rw (e, ◌>>=◌) tt
        | inr ((r, w'), e) ↦
            rw (e, ◌>>=◌)
              (rounds-Serves later w' (
                Serves-SameController s (
                  usbip_server_handle_once-SameController sockets client fresh_node fresh w r w'
                    e)))
      ]
