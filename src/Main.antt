-- ===== src/Main.antt =====
-- The program of src/main.c: it builds a device, registers it with a host controller, and polls the
-- server. Addresses that the allocators return, and that of `dev1`, are arguments; `usleep` only
-- waits. The loop has no end, so it is modelled by the number of its rounds.
pub mod Exported
pub mod Served
pub mod Idling
mod Tests
use embedded_usbip.Prelude.{ℕ, Bool, true, false, Option, none, some, List, [], ◌∷◌, if◌then◌else◌}
use embedded_usbip.UsbDev.{
  DevDesc, EpDesc, IfDesc, ConfDesc, UsbEp, UsbIf, UsbIfGroup, UsbConf, UsbDev, usb_dev_create,
}
use embedded_usbip.UsbDev.Add.{
  usb_dev_add_config, usb_if_add_ep, usb_if_grp_add, usb_dev_add_if_grp,
}
use embedded_usbip.Vhci.{
  VhciHandle, Store, update, vhci_init, Registered, registered, invalid, out_of_memory,
  vhci_register_dev,
}
use embedded_usbip.Usbip.Server.{
  UsbipClient, UsbipServer, ServerWorld, Sockets, Action, ◌>>=◌, ◌>>◌, pure, gets,
}
use embedded_usbip.Usbip.Server.Clients.{usbip_server_setup}
use embedded_usbip.Usbip.Server.Handle.{usbip_server_handle_once}

abbrev pub lang_id_english_us : ℕ
lang_id_english_us = 0x0409

abbrev pub dev : DevDesc
dev = record {
  bcd_usb = 0x200;
  b_device_class = 0xEF;
  b_device_sub_class = 2;
  b_device_protocol = 1;
  b_max_packet_size0 = 64;
  id_vendor = 0;
  id_product = 0;
  bcd_device = 0x200;
  i_manufacturer = 0;
  i_product = 0;
  i_serial_number = 0;
  b_num_configurations = 0;
}

-- The bits `one` and `self_power` of `bmAttributes` are set.
abbrev pub conf : UsbConf
conf = record {
  desc = record {
    b_num_interfaces = 0;
    b_configuration_value = 0;
    i_configuration = 0;
    bm_attributes = 0xC0;
    b_max_power = 255;
  };
  interfaces = [];
  cur_if = 0;
}

-- An interface of the configuration.
abbrev interface : (class sub_class protocol number : ℕ) → UsbIf
interface class sub_class protocol number = record {
  desc = record {
    b_interface_number = number;
    b_alternate_setting = 0;
    b_num_endpoints = 0;
    b_interface_class = class;
    b_interface_sub_class = sub_class;
    b_interface_protocol = protocol;
    i_interface = 0;
  };
  endpoints = [];
}

abbrev pub acm_if : UsbIf
acm_if = interface 2 2 1 0

abbrev pub dcd_if : UsbIf
dcd_if = interface 10 0 0 1

-- A bulk endpoint; bit 7 of the address is the direction, 1 for IN.
abbrev endpoint : (address packet_size : ℕ) → UsbEp
endpoint address packet_size = record {
  desc = record {
    b_endpoint_address = address;
    bm_attributes = 1;
    w_max_packet_size = packet_size;
    b_interval = 1;
  };
}

abbrev pub ep1 : UsbEp
ep1 = endpoint 0x81 128

abbrev pub ep2_in : UsbEp
ep2_in = endpoint 0x82 1023

abbrev pub ep2_out : UsbEp
ep2_out = endpoint 0x02 1023

-- The node behind a call whose result is not looked at.
abbrev pub or_same : {A : Type 0} → A → Option A → A
or_same x o = elim o [ none ↦ x | some y ↦ y ]

abbrev pub acm_with_eps : UsbIf
acm_with_eps = or_same acm_if (usb_if_add_ep (some acm_if) (some ep1))

abbrev pub dcd_with_ep : UsbIf
dcd_with_ep = or_same dcd_if (usb_if_add_ep (some dcd_if) (some ep2_in))

abbrev pub dcd_with_eps : UsbIf
dcd_with_eps = or_same dcd_with_ep (usb_if_add_ep (some dcd_with_ep) (some ep2_out))

abbrev pub empty_grp : UsbIfGroup
empty_grp = record { interfaces = []; cur_alt_set = 0; if_count = 0 }

abbrev pub acm_grp : UsbIfGroup
acm_grp = or_same empty_grp (usb_if_grp_add (some empty_grp) (some acm_with_eps))

abbrev pub if_grp : UsbIfGroup
if_grp = or_same acm_grp (usb_if_grp_add (some acm_grp) (some dcd_with_eps))

abbrev pub created : UsbDev
created = usb_dev_create dev lang_id_english_us

abbrev pub configured : UsbDev
configured = or_same created (usb_dev_add_config (some created) (some conf))

-- `dev1` before it is registered.
abbrev pub dev1 : UsbDev
dev1 = record (or_same configured (usb_dev_add_if_grp (some configured) 0 (some if_grp))) {
  cur_config = 0;
}

abbrev pub set_store : Store → Action (Unit {0})
set_store s w = some (tt, record w { ctx = record (w.ctx) { store = s } })

module _ (sockets : Sockets) where
  -- The result 1 is `true`.
  unfoldable pub serve : Registered → Action Bool
  serve invalid = pure true
  serve (out_of_memory h s) = do set_store s; pure true
  serve (registered h s) = do set_store s; usbip_server_setup sockets h

  -- `main` up to its loop; `dev1` lies at `address`, and the allocators return `vdev` and `node`.
  unfoldable pub set_up : (vdev node address : ℕ) → Action Bool
  set_up vdev node address w = elim vhci_init [
    | none ↦ some (true, w)
    | some h ↦
        elim (vhci_register_dev vdev node (some h) address
          (record (w.ctx.store) { devs = update w.ctx.store.devs address (some dev1) })) [
            | none ↦ none
            | some r ↦ serve r w
          ]
  ]

  -- The loop, with what the allocators return in each round.
  unfoldable pub rounds : List (ℕ × ℕ × UsbipClient) → Action (Unit {0})
  rounds [] = pure tt
  rounds ((client, node, fresh) ∷ later) = do
    usbip_server_handle_once sockets client node fresh
    rounds later

  -- `main` with some rounds of its loop; it returns 1, which is `true`, or goes on.
  unfoldable pub main : (vdev node address : ℕ) → List (ℕ × ℕ × UsbipClient) → Action Bool
  main vdev node address later = do
    failed ← set_up vdev node address
    if failed then pure true else (do rounds later; pure false)
