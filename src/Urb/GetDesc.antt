-- ===== src/Urb/GetDesc.antt =====
-- `handle_get_desc` of src/usb/vhci.c. The results carry the request as the function leaves it;
-- `dest` is an offset into the transfer buffer.
use embedded_usbip.Prelude.{
  ℕ, ◌+◌, ◌*◌, ◌-◌, ◌/◌, ◌%◌, Option, none, some, is_some, List, [], ◌∷◌, ◌++◌, length, ltb, leb,
  ◌==◌, ◌&&◌, if◌then◌else◌, min, neg_int, copy_out,
}
use embedded_usbip.Conv.{to_bytes}
use embedded_usbip.UsbDev.{
  EpDesc, IfDesc, ConfDesc, DevDesc, StringDesc, UsbEp, UsbIf, UsbIfGroup, UsbDev,
  usb_dev_get_config, usb_dev_get_str,
}
use embedded_usbip.Urb.{Urb, write_at, with_status}
use embedded_usbip.Urb.DescType
use embedded_usbip.Urb.Errno

-- The packed descriptors as the bytes that `memcpy` reads.
abbrev pub dev_desc_bytes : DevDesc → List ℕ
dev_desc_bytes d =
    to_bytes 2 d.bcd_usb
    ++ (d.b_device_class
        ∷ d.b_device_sub_class
        ∷ d.b_device_protocol
        ∷ d.b_max_packet_size0
        ∷ (to_bytes 2 d.id_vendor
            ++ (to_bytes 2 d.id_product
                ++ (to_bytes 2 d.bcd_device
                    ++ (d.i_manufacturer ∷ d.i_product ∷ d.i_serial_number ∷ d.b_num_configurations
                        ∷ [])))))

abbrev pub conf_desc_bytes : ConfDesc → List ℕ
conf_desc_bytes d =
    d.b_num_interfaces ∷ d.b_configuration_value ∷ d.i_configuration ∷ d.bm_attributes
    ∷ d.b_max_power ∷ []

abbrev pub if_desc_bytes : IfDesc → List ℕ
if_desc_bytes d =
    d.b_interface_number ∷ d.b_alternate_setting ∷ d.b_num_endpoints ∷ d.b_interface_class
    ∷ d.b_interface_sub_class ∷ d.b_interface_protocol ∷ d.i_interface ∷ []

abbrev pub ep_desc_bytes : EpDesc → List ℕ
ep_desc_bytes d =
    d.b_endpoint_address ∷ d.bm_attributes ∷ (to_bytes 2 d.w_max_packet_size ++ (d.b_interval ∷ []))

-- `hdr->bLength` and `hdr->bDescriptorType` at `dest`.
unfoldable pub write_hdr : Urb → (dest b_length b_type : ℕ) → Option Urb
unfolding write_at
write_hdr urb dest b_length b_type = write_at urb dest (b_length ∷ b_type ∷ [])

-- Where the filling of the buffer stands: it goes on with `remaining` bytes at `dest`, or the
-- function has returned.
pub data Filling : Type 0 where
  going : Urb → (dest remaining : ℕ) → Filling
  returned : Urb → Filling

-- One descriptor: its header, the test for room behind it, and its body.
unfoldable pub put_desc : Urb → (dest remaining b_type : ℕ) → (body : List ℕ) → Option Filling
unfolding write_hdr write_at
put_desc urb dest remaining b_type body = elim (write_hdr urb dest (length body + 2) b_type) [
  | none ↦ none
  | some u ↦
      if ltb remaining (length body + 2)
      then some (returned (with_status (neg_int Errno.enomem) u))
      else elim (write_at u (dest + 2) body) [
        | none ↦ none
        | some v ↦ some (going v (dest + 2 + length body) (remaining - (length body + 2)))
      ]
]

-- `while (ep != NULL)`
unfoldable pub put_eps : List UsbEp → Urb → (dest remaining : ℕ) → Option Filling
unfolding put_desc
put_eps [] urb dest remaining = some (going urb dest remaining)
put_eps (ep ∷ eps) urb dest remaining =
    elim (put_desc urb dest remaining DescType.ep (ep_desc_bytes ep.desc)) [
      | none ↦ none
      | some (returned u) ↦ some (returned u)
      | some (going u d r) ↦ put_eps eps u d r
    ]

-- `while (cur_if_grp != NULL)` inside the loop over the groups: `cur_if` moves on and `cur_if_grp`
-- does not, so that only a return ends it. Behind the last interface `cur_if` is NULL: the header is
-- written, the room is tested, and then the descriptor is read through NULL.
unfoldable pub put_ifs : List UsbIf → Urb → (dest remaining : ℕ) → Option Filling
unfolding write_hdr put_desc put_eps
put_ifs [] urb dest remaining = elim (write_hdr urb dest 9 DescType.if_) [
  | none ↦ none
  | some u ↦
      if ltb remaining 9 then some (returned (with_status (neg_int Errno.enomem) u)) else none
]
put_ifs (i ∷ is) urb dest remaining =
    elim (put_desc urb dest remaining DescType.if_ (if_desc_bytes i.desc)) [
      | none ↦ none
      | some (returned u) ↦ some (returned u)
      | some (going u d r) ↦ elim (put_eps i.endpoints u d r) [
        | none ↦ none
        | some (returned v) ↦ some (returned v)
        | some (going v e q) ↦ put_ifs is v e q
      ]
    ]

-- `while (cur_if_grp != NULL)` over the groups.
unfoldable pub put_groups : List UsbIfGroup → Urb → (dest remaining : ℕ) → Option Filling
unfolding put_ifs
put_groups [] urb dest remaining = some (going urb dest remaining)
put_groups (g ∷ gs) urb dest remaining = elim (put_ifs g.interfaces urb dest remaining) [
  | none ↦ none
  | some (returned u) ↦ some (returned u)
  | some (going u d r) ↦ put_groups gs u d r
]

-- `case USB_DESC_TYPE_DEV`
unfoldable pub get_dev_desc : UsbDev → Urb → Option Urb
unfolding write_hdr write_at
get_dev_desc dev urb = elim (write_hdr urb 0 18 DescType.conf) [
  | none ↦ none
  | some u ↦ elim (write_at u 2 (dev_desc_bytes dev.desc)) [
    | none ↦ none
    | some v ↦ some (record v { actual_length = 18 })
  ]
]

-- `case USB_DESC_TYPE_CONF`
unfoldable pub get_conf_desc : UsbDev → (desc_index : ℕ) → Urb → Option Urb
unfolding write_hdr write_at put_groups
get_conf_desc dev desc_index urb = elim (write_hdr urb 0 7 DescType.conf) [
  | none ↦ none
  | some u ↦ elim (usb_dev_get_config (some dev) desc_index) [
    | none ↦ some u
    | some conf ↦
        if ltb urb.transfer_buffer_length 7
        then some (with_status (neg_int Errno.enomem) u)
        else elim (write_at u 2 (conf_desc_bytes conf.desc)) [
          | none ↦ none
          | some v ↦ elim (put_groups conf.interfaces v 7 (urb.transfer_buffer_length - 7)) [
            | none ↦ none
            | some (returned w) ↦ some w
            | some (going w dest remaining) ↦
                some (record w { actual_length = urb.transfer_buffer_length - remaining })
          ]
        ]
  ]
]

-- The language list, for the index 0. `*((uint16_t*)dest + sizeof(usb_desc_hdr_t))` lies four bytes
-- behind `dest`.
unfoldable pub get_lang_ids : UsbDev → Urb → Option Urb
unfolding write_hdr write_at
get_lang_ids dev urb =
    if ltb urb.transfer_buffer_length 4
    then some (with_status (neg_int Errno.enomem) urb)
    else elim (write_hdr urb 0 4 DescType.str) [
      | none ↦ none
      | some u ↦ elim (write_at u 4 (to_bytes 2 dev.lang_id)) [
        | none ↦ none
        | some v ↦ some (record v { actual_length = 4 })
      ]
    ]

-- What `memcpy` reads from is the `usb_string_desc_t` itself, whose bytes in memory are a parameter.
module _ (image : StringDesc → List ℕ) where
  unfoldable pub get_string : UsbDev → (desc_index : ℕ) → Urb → Option Urb
  unfolding write_hdr write_at
  get_string dev desc_index urb = elim (usb_dev_get_str dev desc_index) [
    | none ↦ some (with_status (neg_int Errno.einval) urb)
    | some str ↦
        let byte_len = min (length str.string) 63 * 4 in
        if ltb urb.transfer_buffer_length (2 + byte_len)
        then some (with_status (neg_int Errno.enomem) urb)
        else elim (write_hdr urb 0 (2 + byte_len) DescType.str) [
          | none ↦ none
          | some u ↦ elim (copy_out (image str) 0 byte_len) [
            | none ↦ none
            | some bytes ↦ elim (write_at u 2 bytes) [
              | none ↦ none
              | some v ↦ some (record v { actual_length = 2 + byte_len })
            ]
          ]
        ]
  ]

  -- The `switch` on the descriptor type.
  unfoldable pub get_desc_of_type : UsbDev → (desc_type desc_index : ℕ) → Urb → Option Urb
  unfolding get_dev_desc get_conf_desc get_lang_ids get_string
  get_desc_of_type dev desc_type desc_index urb =
      if desc_type == DescType.dev
      then get_dev_desc dev urb
      else if desc_type == DescType.conf
      then get_conf_desc dev desc_index urb
      else if desc_type == DescType.str
      then (if desc_index == 0 then get_lang_ids dev urb else get_string dev desc_index urb)
      else some (with_status Errno.enotsup urb)

  unfoldable pub handle_get_desc : UsbDev → Urb → Option Urb
  unfolding get_desc_of_type
  handle_get_desc dev urb =
      let desc_type = urb.setup_packet.w_value / 256 in
      let u = with_status (neg_int Errno.einval) urb in
      if is_some urb.transfer_buffer
        && (ltb 2 urb.transfer_buffer_length && leb desc_type DescType.if_pwr)
      then get_desc_of_type dev desc_type (urb.setup_packet.w_value % 256) u
      else some u
