-- ===== src/UsbDev/Tests.antt =====
-- The device that src/main.c registers, in part, and the theorems at it.
use embedded_usbip.Prelude.{ℕ, refl, List, [], ◌∷◌, link_last, find, at_first, replicate}
use embedded_usbip.UsbDev.{
  DevDesc, UsbEp, UsbIf, UsbIfGroup, UsbConf, UsbDev, usb_dev_create, usb_dev_get_config,
}
use embedded_usbip.UsbDev.Add.{
  reset_conf, usb_dev_add_config, usb_dev_add_if_grp, usb_if_grp_add, usb_if_add_ep,
}
use embedded_usbip.UsbDev.Counters.{
  BuiltIf, no_eps, with_ep, BuiltGroup, zeroed, add_if, BuiltDev, create, add_config, add_if_grp,
  DevCounts, BuiltDev-DevCounts,
}

abbrev dev_desc : DevDesc
dev_desc = record {
  bcd_usb = 0x200;
  b_device_class = 0xEF;
  b_device_sub_class = 2;
  b_device_protocol = 1;
  b_max_packet_size0 = 64;
  id_vendor = 0;
  id_product = 0;
  bcd_device = 0x200;
  i_manufacturer = 0;
  i_product = 0;
  i_serial_number = 0;
  b_num_configurations = 7;
}

abbrev conf : UsbConf
conf = record {
  desc = record {
    b_num_interfaces = 9;
    b_configuration_value = 0;
    i_configuration = 0;
    bm_attributes = 0xC0;
    b_max_power = 255;
  };
  interfaces = [];
  cur_if = 0;
}

abbrev acm_if : UsbIf
acm_if = record {
  desc = record {
    b_interface_number = 0;
    b_alternate_setting = 0;
    b_num_endpoints = 0;
    b_interface_class = 2;
    b_interface_sub_class = 2;
    b_interface_protocol = 1;
    i_interface = 0;
  };
  endpoints = [];
}

abbrev ep1 : UsbEp
ep1 = record {
  desc = record {
    b_endpoint_address = 0x81;
    bm_attributes = 1;
    w_max_packet_size = 128;
    b_interval = 1;
  };
}

-- The interface with its endpoint.
abbrev acm_with_ep : UsbIf
acm_with_ep = record acm_if {
  desc = record (acm_if.desc) { b_num_endpoints = 1 };
  endpoints = ep1 ∷ [];
}

acm-BuiltIf : BuiltIf acm_with_ep
unfolding usb_if_add_ep link_last
acm-BuiltIf = with_ep ep1 (no_eps acm_if refl refl) refl

abbrev bare_group : UsbIfGroup
bare_group = record { interfaces = []; cur_alt_set = 0; if_count = 0 }

abbrev acm_group : UsbIfGroup
acm_group = record { interfaces = acm_with_ep ∷ []; cur_alt_set = 0; if_count = 1 }

abbrev dev_with : (n : ℕ) → List UsbConf → UsbDev
dev_with n confs = record {
  desc = record dev_desc { b_num_configurations = n };
  strings = [];
  cur_config = 65535;
  configurations = confs;
  lang_id = 0x409;
  path = replicate 256 0;
  busid = replicate 32 0;
  busnum = 0;
  devnum = 0;
  speed = 0;
}

abbrev dev1 : UsbDev
dev1 = dev_with 1 (reset_conf conf ∷ [])

abbrev dev2 : UsbDev
dev2 = dev_with 1 (conf_with_acm ∷ [])
  where
    conf_with_acm : UsbConf
    conf_with_acm = record (reset_conf conf) {
      desc = record ((reset_conf conf).desc) { b_num_interfaces = 1 };
      interfaces = acm_group ∷ [];
    }

dev1-BuiltDev : BuiltDev dev1
unfolding usb_dev_add_config link_last usb_dev_create
dev1-BuiltDev = add_config conf (create dev_desc 0x409) refl refl

acm-BuiltGroup : BuiltGroup acm_group
unfolding usb_if_grp_add link_last
acm-BuiltGroup = add_if {g = bare_group} acm_with_ep (zeroed 0) acm-BuiltIf refl

dev2-BuiltDev : BuiltDev dev2
unfolding usb_dev_add_if_grp usb_dev_get_config find at_first link_last
dev2-BuiltDev = add_if_grp 0 acm_group dev1-BuiltDev acm-BuiltGroup refl

BuiltDev-DevCounts_example : DevCounts dev2
BuiltDev-DevCounts_example = BuiltDev-DevCounts dev2-BuiltDev
