-- ===== src/Urb/Status.antt =====
-- The status after `handle_get_desc`.
use embedded_usbip.Prelude.{
  ℕ, ◌+◌, ◌*◌, ◌-◌, ◌/◌, ◌%◌, ◌≡◌, ◌≢◌, inl, inr, Option, some, List, length, min, arith,
  Option-cases, neg_int, copy_out,
}
use embedded_usbip.UsbDev.{StringDesc, UsbDev, usb_dev_get_config, usb_dev_get_str}
use embedded_usbip.Conv.{to_bytes}
use embedded_usbip.Urb.{Urb, write_at, with_status}
use embedded_usbip.Urb.DescType
use embedded_usbip.Urb.Errno
use embedded_usbip.Urb.GetDesc.{
  going, returned, write_hdr, put_groups, get_dev_desc, get_conf_desc, get_lang_ids, get_string,
  get_desc_of_type, handle_get_desc, dev_desc_bytes, conf_desc_bytes,
}
use embedded_usbip.Urb.Filling.{write_at_status, write_hdr_status, put_groups_fails}

-- One of the getters of `handle_get_desc`: a status that is not 0 stays so.
abbrev Fails : Urb → Option Urb → Type 0
Fails urb o = urb.status ≢ 0 → (u : Urb) → o ≡ some u → u.status ≢ 0

get_dev_desc-Fails : (dev : UsbDev) (urb : Urb) → Fails urb (get_dev_desc dev urb)
unfolding get_dev_desc
get_dev_desc-Fails dev urb bad u e = elim (Option-cases (write_hdr urb 0 18 DescType.conf)) [
  | inl fault ↦ ground (arith, fault)
  | inr (v, ok) ↦ elim (Option-cases (write_at v 2 (dev_desc_bytes dev.desc))) [
    | inl fault ↦ ground (arith, ok, fault)
    | inr (w, ok') ↦ ground (
      arith,
      ok,
      ok',
      write_hdr_status urb v 0 18 DescType.conf,
      write_at_status v w 2 (dev_desc_bytes dev.desc),
    )
  ]
]

get_lang_ids-Fails : (dev : UsbDev) (urb : Urb) → Fails urb (get_lang_ids dev urb)
unfolding get_lang_ids
get_lang_ids-Fails dev urb bad u e = elim (Option-cases (write_hdr urb 0 4 DescType.str)) [
  | inl fault ↦ ground (arith, fault)
  | inr (v, ok) ↦ elim (Option-cases (write_at v 4 (to_bytes 2 dev.lang_id))) [
    | inl fault ↦ ground (arith, ok, fault)
    | inr (w, ok') ↦ ground (
      arith,
      ok,
      ok',
      write_hdr_status urb v 0 4 DescType.str,
      write_at_status v w 4 (to_bytes 2 dev.lang_id),
    )
  ]
]

get_conf_desc-Fails :
    (dev : UsbDev) (desc_index : ℕ) (urb : Urb) → Fails urb (get_conf_desc dev desc_index urb)
unfolding get_conf_desc
get_conf_desc-Fails dev desc_index urb bad u e =
    elim (Option-cases (write_hdr urb 0 7 DescType.conf)) [
      | inl fault ↦ ground (arith, fault)
      | inr (v, ok) ↦ elim (Option-cases (usb_dev_get_config (some dev) desc_index)) [
        | inl no_conf ↦ ground (arith, ok, no_conf, write_hdr_status urb v 0 7 DescType.conf)
        | inr (conf, found) ↦ elim (Option-cases (write_at v 2 (conf_desc_bytes conf.desc))) [
          | inl fault ↦ ground (arith, ok, found, fault)
          | inr (w, ok') ↦
              elim (Option-cases
                (put_groups conf.interfaces w 7 (urb.transfer_buffer_length - 7))) [
                  | inl fault ↦ ground (arith, ok, found, ok', fault)
                  | inr (going x d r, ok'') ↦ ground (
                    arith,
                    ok,
                    found,
                    ok',
                    ok'',
                    write_hdr_status urb v 0 7 DescType.conf,
                    write_at_status v w 2 (conf_desc_bytes conf.desc),
                    put_groups_fails conf.interfaces w 7 (urb.transfer_buffer_length - 7)
                        (going x d r),
                  )
                  | inr (returned x, ok'') ↦ ground (
                    arith,
                    ok,
                    found,
                    ok',
                    ok'',
                    write_hdr_status urb v 0 7 DescType.conf,
                    write_at_status v w 2 (conf_desc_bytes conf.desc),
                    put_groups_fails conf.interfaces w 7 (urb.transfer_buffer_length - 7)
                        (returned x),
                  )
                ]
        ]
      ]
    ]

module _ (image : StringDesc → List ℕ) where
  get_string-Fails :
      (dev : UsbDev) (desc_index : ℕ) (urb : Urb) → Fails urb (get_string image dev desc_index urb)
  unfolding get_string
  get_string-Fails dev desc_index urb bad u e =
      elim (Option-cases (usb_dev_get_str dev desc_index)) [
        | inl no_string ↦ ground (arith, no_string)
        | inr (str, found) ↦
            elim (Option-cases
              (write_hdr urb 0 (2 + min (length str.string) 63 * 4) DescType.str)) [
                | inl fault ↦ ground (arith, found, fault)
                | inr (v, ok) ↦
                    elim (Option-cases (copy_out (image str) 0 (min (length str.string) 63 * 4))) [
                      | inl fault ↦ ground (arith, found, ok, fault)
                      | inr (bytes, read) ↦ elim (Option-cases (write_at v 2 bytes)) [
                        | inl fault ↦ ground (arith, found, ok, read, fault)
                        | inr (w, ok') ↦ ground (
                          arith,
                          found,
                          ok,
                          read,
                          ok',
                          write_hdr_status urb v 0 (2 + min (length str.string) 63 * 4)
                              DescType.str,
                          write_at_status v w 2 bytes,
                        )
                      ]
                    ]
              ]
      ]

  get_desc_of_type-Fails :
      (dev : UsbDev) (desc_type desc_index : ℕ) (urb : Urb)
      → Fails urb (get_desc_of_type image dev desc_type desc_index urb)
  unfolding get_desc_of_type
  get_desc_of_type-Fails dev desc_type desc_index urb bad u e = ground (
    arith,
    get_dev_desc-Fails dev urb bad u,
    get_conf_desc-Fails dev desc_index urb bad u,
    get_lang_ids-Fails dev urb bad u,
    get_string-Fails dev desc_index urb bad u,
  )

  -- Whenever `handle_get_desc` returns, the status is not 0: also where the descriptor was copied.
  pub handle_get_desc_status :
      (dev : UsbDev) (urb u : Urb) → handle_get_desc image dev urb ≡ some u → u.status ≢ 0
  unfolding handle_get_desc
  handle_get_desc_status dev urb u e = ground (
    arith,
    get_desc_of_type-Fails dev (urb.setup_packet.w_value / 256) (urb.setup_packet.w_value % 256)
        (with_status (neg_int Errno.einval) urb) (omega arith) u,
  )
