-- ===== src/Urb/Config.antt =====
-- The requests of `handle_urb` on the current configuration.
use embedded_usbip.Prelude.{
  ℕ, ◌%◌, ◌≡◌, ◌⊎◌, inl, inr, refl, ap, ◌∙◌, true, Option, some, none, List, ◌∷◌, ◌==◌, arith,
  find-test, ==_iff, is_some, splice, Option-cases, Bool-cases, ◌&&◌, sym, subst, [],
}
use embedded_usbip.UsbDev.{
  StringDesc, UsbConf, UsbDev, minus_one_16, is_conf, usb_dev_get_config, usb_dev_get_if_grp,
}
use embedded_usbip.Urb.{Urb, write_at, pipe_dir, pipe_type, pipe_ep, pipe_in, pipe_type_ctrl}
use embedded_usbip.Urb.DevReq
use embedded_usbip.Urb.Errno
use embedded_usbip.Urb.GetDesc.{handle_get_desc}
use embedded_usbip.Urb.Handle.{
  Handled, get_conf, set_conf, get_status, get_if, control, handle_urb, with_dev,
}

-- A control request on endpoint 0.
abbrev pub IsControl : Urb → Type 0
IsControl urb = (pipe_ep urb.pipe ≡ 0) × (pipe_type urb.pipe ≡ pipe_type_ctrl)

pub config_value :
    (dev : UsbDev) (conf_idx : ℕ) (conf : UsbConf)
    → usb_dev_get_config (some dev) conf_idx ≡ some conf
    → conf.desc.b_configuration_value ≡ conf_idx
unfolding usb_dev_get_config
config_value dev conf_idx conf e =
    (==_iff conf.desc.b_configuration_value conf_idx).0
      (find-test (is_conf conf_idx) dev.configurations e)

module _ (image : StringDesc → List ℕ) where
  pub set_conf_lem :
      (dev : UsbDev) (conf : UsbConf) (urb : Urb)
      → IsControl urb
      → urb.setup_packet.b_request ≡ DevReq.set_conf
      → usb_dev_get_config (some dev) (urb.setup_packet.w_value % 256) ≡ some conf
      → handle_urb image dev urb
        ≡ some (record {
          dev = record dev { cur_config = urb.setup_packet.w_value % 256 };
          urb = record urb { actual_length = 0 };
          completed = true;
        })
  unfolding handle_urb control set_conf
  set_conf_lem dev conf urb ctl req e =
      ground (arith, config_value dev (urb.setup_packet.w_value % 256) conf e)

  pub get_conf_lem :
      (dev : UsbDev) (urb : Urb) (b : ℕ) (bs : List ℕ)
      → IsControl urb
      → urb.setup_packet.b_request ≡ DevReq.get_conf
      → urb.setup_packet.w_length ≡ 1
      → urb.transfer_buffer_length ≡ 1
      → pipe_dir urb.pipe ≡ pipe_in
      → urb.transfer_buffer ≡ some (b ∷ bs)
      → handle_urb image dev urb
        ≡ some (record {
          dev = dev;
          urb = record urb {
            status = 0;
            actual_length = 1;
            transfer_buffer = some ((dev.cur_config % 256) ∷ bs);
          };
          completed = true;
        })
  unfolding handle_urb control get_conf write_at splice
  get_conf_lem dev urb b bs ctl req len tbl dir buf = ground arith

  -- A control request SET_CONFIGURATION with the value of a configuration of the device is
  -- completed, with the length 0 and nothing else of it changed, its status included; a
  -- GET_CONFIGURATION request for one byte, into a buffer that is not empty, then returns this
  -- value with the status 0 and changes nothing else.
  pub get_conf-set_conf :
      (dev : UsbDev) (conf : UsbConf) (set get : Urb) (b : ℕ) (bs : List ℕ)
      → IsControl set
      → set.setup_packet.b_request ≡ DevReq.set_conf
      → usb_dev_get_config (some dev) (set.setup_packet.w_value % 256) ≡ some conf
      → IsControl get
      → get.setup_packet.b_request ≡ DevReq.get_conf
      → get.setup_packet.w_length ≡ 1
      → get.transfer_buffer_length ≡ 1
      → pipe_dir get.pipe ≡ pipe_in
      → get.transfer_buffer ≡ some (b ∷ bs)
      → (d : Handled) × (handle_urb image dev set ≡ some d)
        × (d.urb ≡ record set { actual_length = 0 })
        × (d.completed ≡ true)
        × (handle_urb image d.dev get
            ≡ some (record {
              dev = d.dev;
              urb = record get {
                status = 0;
                actual_length = 1;
                transfer_buffer = some (conf.desc.b_configuration_value ∷ bs);
              };
              completed = true;
            }))
  get_conf-set_conf dev conf set get b bs ctl req e ctl' req' len tbl dir buf = (
    record {
      dev = record dev { cur_config = set.setup_packet.w_value % 256 };
      urb = record set { actual_length = 0 };
      completed = true;
    },
    set_conf_lem dev conf set ctl req e,
    refl,
    refl,
    get_conf_lem (record dev { cur_config = set.setup_packet.w_value % 256 }) get b bs ctl' req' len
          tbl dir buf
        ∙ ap
            (λ v. some (record {
              dev = record dev { cur_config = set.setup_packet.w_value % 256 };
              urb = record get { status = 0; actual_length = 1; transfer_buffer = some (v ∷ bs) };
              completed = true;
            }))
            (omega (arith, config_value dev (set.setup_packet.w_value % 256) conf e)),
  )

-- The current configuration is none yet, or one that the device has.
abbrev pub ConfigExists : UsbDev → Type 0
ConfigExists dev =
    (dev.cur_config ≡ minus_one_16)
    ⊎ (is_some (usb_dev_get_config (some dev) dev.cur_config) ≡ true)

with_dev-eq : (dev d : UsbDev) (o : Option Urb) (u : Urb) → with_dev dev o ≡ some (d, u) → d ≡ dev
with_dev-eq dev d none u e = cc
with_dev-eq dev d (some v) u e = cc

set_conf-ConfigExists :
    (dev d : UsbDev) (urb u : Urb)
    → set_conf dev urb ≡ some (d, u)
    → ConfigExists dev
    → ConfigExists d
unfolding set_conf usb_dev_get_config
set_conf-ConfigExists dev d urb u e ok =
    elim (Option-cases (usb_dev_get_config (some dev) (urb.setup_packet.w_value % 256))) [
      | inl no_conf ↦ ground (arith, no_conf)
      | inr (conf, found) ↦
          inr (ground (arith, found, config_value dev (urb.setup_packet.w_value % 256) conf found))
    ]

module _ (dev d : UsbDev) (urb u : Urb) where
  get_status_dev : get_status dev urb ≡ some (d, u) → d ≡ dev
  unfolding get_status
  get_status_dev e = with_dev-eq dev d _ u e

  get_conf_dev : get_conf dev urb ≡ some (d, u) → d ≡ dev
  unfolding get_conf
  get_conf_dev e = ground (
    arith,
    with_dev-eq dev d
        (write_at (record urb { status = 0; actual_length = 1 }) 0 ((dev.cur_config % 256) ∷ [])) u,
  )

  get_if_dev : get_if dev urb ≡ some (d, u) → d ≡ dev
  unfolding get_if
  get_if_dev e =
      elim (Option-cases
        (usb_dev_get_if_grp (some dev) (dev.cur_config % 256) (urb.setup_packet.w_index % 256))) [
          | inl no_group ↦ ground (arith, no_group)
          | inr (g, found) ↦ ground (
            arith,
            found,
            with_dev-eq dev d
                (write_at (record urb { status = Errno.einval; actual_length = 1 }) 0
                  ((g.cur_alt_set % 256) ∷ []))
                u,
          )
        ]

module _ (image : StringDesc → List ℕ) where
  -- Only SET_CONFIGURATION changes the device.
  control_dev :
      (dev d : UsbDev) (urb u : Urb)
      → control image dev urb ≡ some (d, u)
      → (d ≡ dev) ⊎ (set_conf dev urb ≡ some (d, u))
  unfolding control
  control_dev dev d urb u e = ground (
    arith,
    get_status_dev dev d urb u,
    get_conf_dev dev d urb u,
    get_if_dev dev d urb u,
    with_dev-eq dev d (handle_get_desc image dev urb) u,
  )

  control-ConfigExists :
      (dev d : UsbDev) (urb u : Urb)
      → control image dev urb ≡ some (d, u)
      → ConfigExists dev
      → ConfigExists d
  control-ConfigExists dev d urb u e ok = elim (control_dev dev d urb u e) [
    | inl same ↦ subst ConfigExists (sym same) ok
    | inr set ↦ set_conf-ConfigExists dev d urb u set ok
  ]

  -- Whatever the request, a device whose current configuration is none yet or one that it has is
  -- such a device after `handle_urb` as well.
  pub handle_urb-ConfigExists :
      (dev : UsbDev) (urb : Urb) (d : Handled)
      → handle_urb image dev urb ≡ some d
      → ConfigExists dev
      → ConfigExists d.dev
  unfolding handle_urb
  handle_urb-ConfigExists dev urb d e ok =
      elim (Bool-cases ((pipe_ep urb.pipe == 0) && (pipe_type urb.pipe == pipe_type_ctrl))) [
        | inl ctl ↦ elim (Option-cases (control image dev (record urb { actual_length = 0 }))) [
          | inl fault ↦ ground (arith, ctl, fault)
          | inr ((d', u), ran) ↦
              subst ConfigExists {x = d'} {y = d.dev} (ground (arith, ctl, ran))
                (control-ConfigExists dev d' (record urb { actual_length = 0 }) u ran ok)
        ]
        | inr other ↦ subst ConfigExists {x = dev} {y = d.dev} (ground (arith, other)) ok
      ]
