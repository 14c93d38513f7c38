-- ===== src/UsbDev/Add.antt =====
-- The functions of src/usb/dev.c that extend a device. A function returns `none` where the code
-- returns 0 and changes nothing, and else the changed node (the code returns 1).
use embedded_usbip.Prelude.{
  ℕ, ◌+◌, ◌%◌, ◌^◌, true, false, Bool, Option, none, some, List, [], ◌∷◌, if◌then◌else◌, link_last,
  at_first, is_some,
}
use embedded_usbip.UsbDev.{
  UsbEp, UsbIf, UsbIfGroup, UsbConf, UsbDev, minus_one_16, is_conf, is_if, if_in_group,
  usb_dev_get_config, usb_dev_get_if,
}

abbrev pub is_empty {ℓ} : {A : Type ℓ} → List A → Bool
is_empty [] = true
is_empty (x ∷ xs) = false

-- A configuration as `usb_dev_add_config` links it.
abbrev pub reset_conf : UsbConf → UsbConf
reset_conf conf = record conf {
  cur_if = minus_one_16;
  desc = record (conf.desc) { b_num_interfaces = 0 };
}

unfoldable pub usb_dev_add_config : Option UsbDev → Option UsbConf → Option UsbDev
usb_dev_add_config none conf = none
usb_dev_add_config (some dev) none = none
usb_dev_add_config (some dev) (some conf) = some (record dev {
  configurations = link_last dev.configurations (reset_conf conf);
  desc = record (dev.desc) {
    b_num_configurations =
        if is_empty dev.configurations then 1 else (dev.desc.b_num_configurations + 1) % 256;
  };
})

-- Both branches of the code add `if_count` to the 8-bit counter.
abbrev pub conf_with_group : UsbConf → UsbIfGroup → UsbConf
conf_with_group conf g = record conf {
  interfaces = link_last conf.interfaces g;
  desc = record (conf.desc) { b_num_interfaces = (conf.desc.b_num_interfaces + g.if_count) % 256 };
}

unfoldable pub usb_conf_add_if_grp : Option UsbConf → Option UsbIfGroup → Option UsbConf
usb_conf_add_if_grp none g = none
usb_conf_add_if_grp (some conf) none = none
usb_conf_add_if_grp (some conf) (some g) = some (conf_with_group conf g)

-- The change is made through the pointer that `usb_dev_get_config` returns.
unfoldable pub usb_dev_add_if_grp :
    Option UsbDev → (conf_idx : ℕ) → Option UsbIfGroup → Option UsbDev
usb_dev_add_if_grp none conf_idx g = none
usb_dev_add_if_grp (some dev) conf_idx none = none
usb_dev_add_if_grp (some dev) conf_idx (some g) =
    if is_some (usb_dev_get_config (some dev) conf_idx)
    then some (record dev {
      configurations =
          at_first (is_conf conf_idx) (λ conf. conf_with_group conf g) dev.configurations;
    })
    else none

unfoldable pub usb_if_grp_add : Option UsbIfGroup → Option UsbIf → Option UsbIfGroup
usb_if_grp_add none i = none
usb_if_grp_add (some g) none = none
usb_if_grp_add (some g) (some i) = some (
    if is_empty g.interfaces
    then record g {
      if_count = 1;
      cur_alt_set = i.desc.b_alternate_setting;
      interfaces = link_last [] i;
    }
    else record g { if_count = (g.if_count + 1) % 2 ^ 64; interfaces = link_last g.interfaces i })

abbrev pub if_with_ep : UsbIf → UsbEp → UsbIf
if_with_ep i ep = record i {
  endpoints = link_last i.endpoints ep;
  desc = record (i.desc) { b_num_endpoints = (i.desc.b_num_endpoints + 1) % 256 };
}

unfoldable pub usb_if_add_ep : Option UsbIf → Option UsbEp → Option UsbIf
usb_if_add_ep none ep = none
usb_if_add_ep (some i) none = none
usb_if_add_ep (some i) (some ep) = some (if_with_ep i ep)

-- The change of one interface through the pointer that `usb_dev_get_if` returns.
abbrev pub group_with_ep : (if_idx if_alt : ℕ) → UsbEp → UsbIfGroup → UsbIfGroup
group_with_ep if_idx if_alt ep g = record g {
  interfaces = at_first (is_if if_idx if_alt) (λ i. if_with_ep i ep) g.interfaces;
}

abbrev pub has_if : (if_idx if_alt : ℕ) → UsbIfGroup → Bool
has_if if_idx if_alt g = is_some (if_in_group if_idx if_alt g)

abbrev pub conf_with_ep : (if_idx if_alt : ℕ) → UsbEp → UsbConf → UsbConf
conf_with_ep if_idx if_alt ep conf = record conf {
  interfaces = at_first (has_if if_idx if_alt) (group_with_ep if_idx if_alt ep) conf.interfaces;
}

unfoldable pub usb_dev_add_ep :
    Option UsbDev → (conf_idx if_idx if_alt : ℕ) → Option UsbEp → Option UsbDev
usb_dev_add_ep none conf_idx if_idx if_alt ep = none
usb_dev_add_ep (some dev) conf_idx if_idx if_alt none = none
usb_dev_add_ep (some dev) conf_idx if_idx if_alt (some ep) =
    if is_some (usb_dev_get_if (some dev) conf_idx if_idx if_alt)
    then some (record dev {
      configurations =
          at_first (is_conf conf_idx) (conf_with_ep if_idx if_alt ep) dev.configurations;
    })
    else none
