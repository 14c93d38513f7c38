-- ===== src/Urb/Tests.antt =====
-- Requests to a device with one configuration, and the theorems at them.
use embedded_usbip.Prelude.{
  ℕ, ◌≡◌, ◌⊎◌, inl, refl, some, none, List, [], ◌∷◌, arith, replicate, find, neg_int, true,
}
use embedded_usbip.UsbDev.{
  DevDesc, StringDesc, UsbIfGroup, UsbConf, UsbDev, usb_dev_get_config, minus_one_16,
}
use embedded_usbip.Urb.{Urb}
use embedded_usbip.Urb.Errno
use embedded_usbip.Urb.GetDesc.{handle_get_desc}
use embedded_usbip.Urb.Handle.{Handled, handle_urb}
use embedded_usbip.Urb.Config.{
  get_conf-set_conf, handle_urb-ConfigExists, set_conf_lem, ConfigExists,
}
use embedded_usbip.Urb.Descriptors.{get_conf_desc_never_ends, get_dev_desc_lem}

abbrev desc : DevDesc
desc = record {
  bcd_usb = 0x200;
  b_device_class = 0xEF;
  b_device_sub_class = 2;
  b_device_protocol = 1;
  b_max_packet_size0 = 64;
  id_vendor = 0x1234;
  id_product = 0x5678;
  bcd_device = 0x100;
  i_manufacturer = 0;
  i_product = 0;
  i_serial_number = 0;
  b_num_configurations = 1;
}

abbrev group : UsbIfGroup
group = record { interfaces = []; cur_alt_set = 0; if_count = 0 }

abbrev conf : UsbConf
conf = record {
  desc = record {
    b_num_interfaces = 0;
    b_configuration_value = 1;
    i_configuration = 0;
    bm_attributes = 0x80;
    b_max_power = 50;
  };
  interfaces = group ∷ [];
  cur_if = minus_one_16;
}

abbrev dev : UsbDev
dev = record {
  desc = desc;
  strings = [];
  cur_config = minus_one_16;
  configurations = conf ∷ [];
  lang_id = 0x409;
  path = replicate 256 0;
  busid = replicate 32 0;
  busnum = 0;
  devnum = 0;
  speed = 3;
}

abbrev image : StringDesc → List ℕ
image s = s.idx ∷ []

abbrev zeros : ℕ → List ℕ
zeros n = replicate n 0

-- A control request on endpoint 0 that reads into a buffer of `n` bytes.
abbrev request : (b_request w_value w_length n : ℕ) → Urb
request b_request w_value w_length n = record {
  pipe = 1;
  status = 0;
  transfer_buffer = some (zeros n);
  transfer_buffer_length = n;
  actual_length = 0;
  setup_packet = record {
    bm_request_type = 0x80;
    b_request = b_request;
    w_value = w_value;
    w_index = 0;
    w_length = w_length;
  };
  transfer_flags = 0;
  number_of_packets = 0;
  start_frame = 0;
  interval = 0;
  error_count = 0;
  seq_num = 1;
}

get_conf-set_conf_example :
    (d : Handled) × (handle_urb image dev (request 9 1 0 0) ≡ some d)
    × (d.urb ≡ record (request 9 1 0 0) { actual_length = 0 })
    × (d.completed ≡ true)
    × (handle_urb image d.dev (request 8 0 1 1)
        ≡ some (record {
          dev = d.dev;
          urb = record (request 8 0 1 1) { actual_length = 1; transfer_buffer = some (1 ∷ []) };
          completed = true;
        }))
unfolding usb_dev_get_config find
get_conf-set_conf_example =
    get_conf-set_conf image dev conf (request 9 1 0 0) (request 8 0 1 1) 0 [] (refl, refl) refl refl
      (refl, refl) refl refl refl refl refl

configured :
    handle_urb image dev (request 9 1 0 0)
    ≡ some (record { dev = record dev { cur_config = 1 }; urb = request 9 1 0 0; completed = true })
unfolding usb_dev_get_config find
configured = set_conf_lem image dev conf (request 9 1 0 0) (refl, refl) refl refl

handle_urb-ConfigExists_example : ConfigExists (record dev { cur_config = 1 })
handle_urb-ConfigExists_example =
    handle_urb-ConfigExists image dev (request 9 1 0 0)
      (record { dev = record dev { cur_config = 1 }; urb = request 9 1 0 0; completed = true })
      configured (inl refl)

abbrev answered : Urb
answered = record (request 6 0x100 18 18) {
  status = neg_int Errno.einval;
  actual_length = 18;
  transfer_buffer =
      some (
        18 ∷ 2 ∷ 0 ∷ 2 ∷ 0xEF ∷ 2 ∷ 1 ∷ 64 ∷ 0x34 ∷ 0x12 ∷ 0x78 ∷ 0x56 ∷ 0 ∷ 1 ∷ 0 ∷ 0 ∷ 0 ∷ 1
        ∷ []);
}

answered_run : handle_get_desc image dev (request 6 0x100 18 18) ≡ some answered
answered_run =
    get_dev_desc_lem image dev (request 6 0x100 18 18) (zeros 18) refl refl (omega arith) refl

get_dev_desc_lem_example : handle_get_desc image dev (request 6 0x100 18 18) ≡ some answered
get_dev_desc_lem_example =
    get_dev_desc_lem image dev (request 6 0x100 18 18) (zeros 18) refl refl (omega arith) refl

get_conf_desc_never_ends_example :
    (handle_get_desc image dev (request 6 0x201 32 32) ≡ none)
    ⊎ ((u : Urb) × (handle_get_desc image dev (request 6 0x201 32 32) ≡ some u)
        × (u.status ≡ neg_int Errno.enomem))
unfolding usb_dev_get_config find
get_conf_desc_never_ends_example =
    get_conf_desc_never_ends image dev conf group [] (request 6 0x201 32 32) (zeros 32) refl
      (omega arith) refl refl refl
