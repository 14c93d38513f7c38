-- ===== src/Urb/Descriptors.antt =====
-- The device descriptor and the configuration descriptor of `handle_get_desc`.
use embedded_usbip.Prelude.{
  ℕ, ◌-◌, ◌/◌, ◌%◌, ◌<◌, ◌≡◌, ◌⊎◌, inl, inr, refl, subst, sym, some, none, List, [], ◌∷◌, ◌++◌,
  drop, length, arith, Option-cases, Bool-cases, ltb, leb, if◌then◌else◌, neg_int, splice,
}
use embedded_usbip.UsbDev.{StringDesc, UsbIfGroup, UsbConf, UsbDev, usb_dev_get_config}
use embedded_usbip.Urb.{Urb, write_at, with_status}
use embedded_usbip.Urb.DescType
use embedded_usbip.Urb.Errno
use embedded_usbip.Urb.GetDesc.{
  write_hdr, put_groups, get_dev_desc, get_conf_desc, get_desc_of_type, handle_get_desc,
  dev_desc_bytes, conf_desc_bytes,
}
use embedded_usbip.Urb.Filling.{put_groups-Stopped, Stopped}

get_conf_desc_stops :
    (dev : UsbDev) (desc_index : ℕ) (conf : UsbConf) (g : UsbIfGroup) (gs : List UsbIfGroup)
    (urb : Urb)
    → usb_dev_get_config (some dev) desc_index ≡ some conf
    → conf.interfaces ≡ g ∷ gs
    → (get_conf_desc dev desc_index urb ≡ none)
      ⊎ ((u : Urb) × (get_conf_desc dev desc_index urb ≡ some u)
          × (u.status ≡ neg_int Errno.enomem))
unfolding get_conf_desc
get_conf_desc_stops dev desc_index conf g gs urb found groups =
    elim (Option-cases (write_hdr urb 0 7 DescType.conf)) [
      | inl fault ↦ inl (ground (arith, fault))
      | inr (v, ok) ↦ elim (Bool-cases (ltb urb.transfer_buffer_length 7)) [
        | inl full ↦
            inr (with_status (neg_int Errno.enomem) v, ground (arith, ok, found, full), refl)
        | inr room ↦ elim (Option-cases (write_at v 2 (conf_desc_bytes conf.desc))) [
          | inl fault ↦ inl (ground (arith, ok, found, room, fault))
          | inr (w, ok') ↦
              elim (subst (λ l. Stopped (put_groups l w 7 (urb.transfer_buffer_length - 7)))
                (sym groups) (put_groups-Stopped g gs w 7 (urb.transfer_buffer_length - 7))) [
                  | inl fault ↦ inl (ground (arith, ok, found, room, ok', fault))
                  | inr (u, stop, full) ↦ inr (u, ground (arith, ok, found, room, ok', stop), full)
                ]
        ]
      ]
    ]

module _ (image : StringDesc → List ℕ) where
  -- A request for the descriptor of a configuration that has groups of interfaces, with a buffer
  -- that is not NULL and a `transfer_buffer_length` above 2, never succeeds: `handle_get_desc`
  -- leaves the buffer or reads through NULL, or returns with -ENOMEM.
  pub get_conf_desc_never_ends :
      (dev : UsbDev) (conf : UsbConf) (g : UsbIfGroup) (gs : List UsbIfGroup) (urb : Urb)
      (bytes : List ℕ)
      → urb.transfer_buffer ≡ some bytes
      → 2 < urb.transfer_buffer_length
      → urb.setup_packet.w_value / 256 ≡ DescType.conf
      → usb_dev_get_config (some dev) (urb.setup_packet.w_value % 256) ≡ some conf
      → conf.interfaces ≡ g ∷ gs
      → (handle_get_desc image dev urb ≡ none)
        ⊎ ((u : Urb) × (handle_get_desc image dev urb ≡ some u) × (u.status ≡ neg_int Errno.enomem))
  unfolding handle_get_desc get_desc_of_type get_conf_desc
  get_conf_desc_never_ends dev conf g gs urb bytes buf len conf_type found groups =
      elim (get_conf_desc_stops dev (urb.setup_packet.w_value % 256) conf g gs
        (with_status (neg_int Errno.einval) urb) found groups) [
          | inl fault ↦ inl (ground (arith, fault))
          | inr (u, stop, full) ↦ inr (u, ground (arith, stop), full)
        ]

  -- A request for the device descriptor, with a buffer that is not NULL and as long as
  -- `transfer_buffer_length` says, which is more than 2: if the buffer has at least 18 bytes, it
  -- copies the 16 bytes of the descriptor behind a header whose type is that of a configuration
  -- descriptor, leaves the rest of the buffer alone, and sets the length 18 and the status -EINVAL;
  -- if the buffer has 3 to 17 bytes, it writes behind the end.
  pub get_dev_desc_lem :
      (dev : UsbDev) (urb : Urb) (bytes : List ℕ)
      → urb.transfer_buffer ≡ some bytes
      → length bytes ≡ urb.transfer_buffer_length
      → 2 < urb.transfer_buffer_length
      → urb.setup_packet.w_value / 256 ≡ DescType.dev
      → handle_get_desc image dev urb ≡ (
          if leb 18 (length bytes)
          then some (record urb {
            status = neg_int Errno.einval;
            actual_length = 18;
            transfer_buffer =
                some (18 ∷ DescType.conf ∷ (dev_desc_bytes dev.desc ++ drop 18 bytes));
          })
          else none)
  unfolding handle_get_desc get_desc_of_type get_dev_desc write_hdr write_at splice
  get_dev_desc_lem dev urb [] buf len big dev_type = absurd (omega arith)
  get_dev_desc_lem dev urb (x ∷ []) buf len big dev_type = absurd (omega arith)
  get_dev_desc_lem dev urb (x ∷ y ∷ rest) buf len big dev_type = ground arith
