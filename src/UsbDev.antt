-- ===== src/UsbDev.antt =====
-- The device tree of src/usb/dev.h and src/usb/dev.c: a device has configurations, these have
-- groups of interfaces (the alternate settings), and an interface has endpoints. A chain of `next`
-- pointers is a list; a node is linked in one place. Fields of w bits are numbers below 2^w, and
-- -1 in an `int16_t` is 2^16 - 1. The arithmetic of the 8-bit counters wraps.
pub mod Add
pub mod Lookup
pub mod Counters
mod Tests
use embedded_usbip.Prelude.{
  ℕ, ◌+◌, ◌-◌, ◌%◌, ◌/◌, ◌^◌, Bool, Option, none, some, List, [], ◌∷◌, ◌==◌, ◌&&◌, if◌then◌else◌,
  false, find, replicate,
}

-- `usb_ep_desc_t`; `ep_nb` and `dir` are bit fields of `bEndpointAddress`.
pub record EpDesc : Type 0 where
  pub b_endpoint_address : ℕ
  pub bm_attributes : ℕ
  pub w_max_packet_size : ℕ
  pub b_interval : ℕ

abbrev pub ep_nb : EpDesc → ℕ
ep_nb d = d.b_endpoint_address % 16

abbrev pub ep_dir : EpDesc → ℕ
ep_dir d = d.b_endpoint_address / 128

-- `usb_if_desc_t`.
pub record IfDesc : Type 0 where
  pub b_interface_number : ℕ
  pub b_alternate_setting : ℕ
  pub b_num_endpoints : ℕ
  pub b_interface_class : ℕ
  pub b_interface_sub_class : ℕ
  pub b_interface_protocol : ℕ
  pub i_interface : ℕ

-- `usb_conf_desc_t`.
pub record ConfDesc : Type 0 where
  pub b_num_interfaces : ℕ
  pub b_configuration_value : ℕ
  pub i_configuration : ℕ
  pub bm_attributes : ℕ
  pub b_max_power : ℕ

-- `usb_dev_desc_t`.
pub record DevDesc : Type 0 where
  pub bcd_usb : ℕ
  pub b_device_class : ℕ
  pub b_device_sub_class : ℕ
  pub b_device_protocol : ℕ
  pub b_max_packet_size0 : ℕ
  pub id_vendor : ℕ
  pub id_product : ℕ
  pub bcd_device : ℕ
  pub i_manufacturer : ℕ
  pub i_product : ℕ
  pub i_serial_number : ℕ
  pub b_num_configurations : ℕ

-- `usb_string_desc_t`: an index and the characters up to the terminator.
pub record StringDesc : Type 0 where
  pub idx : ℕ
  pub string : List ℕ

-- `usb_ep_t`; its two callbacks are called by no function of the repository.
pub record UsbEp : Type 0 where
  pub desc : EpDesc

-- `usb_if_t`.
pub record UsbIf : Type 0 where
  pub desc : IfDesc
  pub endpoints : List UsbEp

-- `usb_if_group_t`.
pub record UsbIfGroup : Type 0 where
  pub interfaces : List UsbIf
  pub cur_alt_set : ℕ
  pub if_count : ℕ

-- `usb_conf_t`.
pub record UsbConf : Type 0 where
  pub desc : ConfDesc
  pub interfaces : List UsbIfGroup
  pub cur_if : ℕ

-- `usb_dev_t`.
pub record UsbDev : Type 0 where
  pub desc : DevDesc
  pub strings : List StringDesc
  pub cur_config : ℕ
  pub configurations : List UsbConf
  pub lang_id : ℕ
  pub path : List ℕ
  pub busid : List ℕ
  pub busnum : ℕ
  pub devnum : ℕ
  pub speed : ℕ

abbrev pub minus_one_16 : ℕ
minus_one_16 = 2 ^ 16 - 1

-- Fields that the initialiser does not name are zero.
unfoldable pub usb_dev_create : DevDesc → (lang_id : ℕ) → UsbDev
usb_dev_create desc lang_id = record {
  desc = record desc { b_num_configurations = 0 };
  strings = [];
  cur_config = minus_one_16;
  configurations = [];
  lang_id = lang_id;
  path = replicate 256 0;
  busid = replicate 32 0;
  busnum = 0;
  devnum = 0;
  speed = 0;
}

-- The tests of the searches.
abbrev pub is_conf : ℕ → UsbConf → Bool
is_conf conf_idx c = c.desc.b_configuration_value == conf_idx

abbrev pub is_if : (if_idx if_alt : ℕ) → UsbIf → Bool
is_if if_idx if_alt i =
    (i.desc.b_interface_number == if_idx) && (i.desc.b_alternate_setting == if_alt)

abbrev pub is_ep : (idx dir : ℕ) → UsbEp → Bool
is_ep idx dir e = (ep_nb e.desc == idx) && (ep_dir e.desc == dir)

-- `cur->interfaces != NULL && cur->interfaces->desc.bInterfaceNumber == if_idx`
abbrev pub first_is : ℕ → List UsbIf → Bool
first_is if_idx [] = false
first_is if_idx (i ∷ is) = i.desc.b_interface_number == if_idx

-- A NULL argument is `none`.
unfoldable pub usb_dev_get_config : Option UsbDev → (conf_idx : ℕ) → Option UsbConf
usb_dev_get_config none conf_idx = none
usb_dev_get_config (some dev) conf_idx = find (is_conf conf_idx) dev.configurations

unfoldable pub usb_conf_get_if_grp : Option UsbConf → (if_idx : ℕ) → Option UsbIfGroup
usb_conf_get_if_grp none if_idx = none
usb_conf_get_if_grp (some conf) if_idx = find (λ g. first_is if_idx g.interfaces) conf.interfaces

unfoldable pub usb_dev_get_if_grp : Option UsbDev → (conf_idx if_idx : ℕ) → Option UsbIfGroup
usb_dev_get_if_grp dev conf_idx if_idx =
    usb_conf_get_if_grp (usb_dev_get_config dev conf_idx) if_idx

-- The interface that the inner loop of `usb_conf_get_if` finds in one group.
abbrev pub if_in_group : (if_idx if_alt : ℕ) → UsbIfGroup → Option UsbIf
if_in_group if_idx if_alt g =
    if g.cur_alt_set == if_alt then find (is_if if_idx if_alt) g.interfaces else none

-- The outer loop: the first group that has one.
unfoldable pub if_in_groups : (if_idx if_alt : ℕ) → List UsbIfGroup → Option UsbIf
if_in_groups if_idx if_alt [] = none
if_in_groups if_idx if_alt (g ∷ gs) = elim (if_in_group if_idx if_alt g) [
  | some i ↦ some i
  | none ↦ if_in_groups if_idx if_alt gs
]

unfoldable pub usb_conf_get_if : Option UsbConf → (if_idx if_alt : ℕ) → Option UsbIf
usb_conf_get_if none if_idx if_alt = none
usb_conf_get_if (some conf) if_idx if_alt = if_in_groups if_idx if_alt conf.interfaces

unfoldable pub usb_dev_get_if : Option UsbDev → (conf_idx if_idx if_alt : ℕ) → Option UsbIf
usb_dev_get_if none conf_idx if_idx if_alt = none
usb_dev_get_if (some dev) conf_idx if_idx if_alt =
    usb_conf_get_if (usb_dev_get_config (some dev) conf_idx) if_idx if_alt

unfoldable pub usb_if_get_ep : Option UsbIf → (idx dir : ℕ) → Option UsbEp
usb_if_get_ep none idx dir = none
usb_if_get_ep (some i) idx dir = find (is_ep idx dir) i.endpoints

unfoldable pub usb_dev_get_ep : Option UsbDev → (conf_idx if_idx if_alt idx dir : ℕ) → Option UsbEp
usb_dev_get_ep none conf_idx if_idx if_alt idx dir = none
usb_dev_get_ep (some dev) conf_idx if_idx if_alt idx dir =
    usb_if_get_ep (usb_dev_get_if (some dev) conf_idx if_idx if_alt) idx dir

unfoldable pub usb_dev_get_str : UsbDev → (str_idx : ℕ) → Option StringDesc
usb_dev_get_str dev str_idx = find (λ s. s.idx == str_idx) dev.strings
