-- ===== src/UsbDev/Lookup.antt =====
-- What the searches of src/usb/dev.c find after each function that extends a device.
use embedded_usbip.Prelude.{
  ℕ, ◌≡◌, refl, none, some, List, [], ◌∷◌, inl, inr, arith, ◌==◌, ==_iff, Bool-cases, Option-cases,
  if◌then◌else◌, or_else, map_option, find, at_first, find-link_last, find-test, find-at_first,
  find-at_first_other,
}
use embedded_usbip.UsbDev.{
  UsbEp, UsbIf, UsbIfGroup, UsbConf, UsbDev, is_conf, is_if, is_ep, if_in_group, if_in_groups,
  usb_dev_get_config, usb_conf_get_if, usb_dev_get_if, usb_if_get_ep, usb_dev_get_ep,
}
use embedded_usbip.UsbDev.Add.{
  reset_conf, usb_dev_add_config, conf_with_group, usb_conf_add_if_grp, usb_dev_add_if_grp,
  if_with_ep, group_with_ep, has_if, conf_with_ep, usb_dev_add_ep,
}

-- After `usb_dev_add_config` a search for any configuration value finds what it found before, and
-- where it found nothing, the new configuration if it has that value.
pub get_config-add_config :
    (dev : UsbDev) (conf : UsbConf) (j : ℕ) {dev' : UsbDev}
    → usb_dev_add_config (some dev) (some conf) ≡ some dev'
    → usb_dev_get_config (some dev') j
      ≡ or_else
          (usb_dev_get_config (some dev) j)
          (if conf.desc.b_configuration_value == j then some (reset_conf conf) else none)
unfolding usb_dev_add_config usb_dev_get_config
get_config-add_config dev conf j e =
    ground (arith, find-link_last (is_conf j) dev.configurations (reset_conf conf))

-- The configuration that a search finds, after a change of the one with another value or the same.
get_config-change :
    (f : UsbConf → UsbConf) (confs : List UsbConf) (c j : ℕ)
    → ((conf : UsbConf) → (f conf).desc.b_configuration_value ≡ conf.desc.b_configuration_value)
    → find (is_conf j) (at_first (is_conf c) f confs)
      ≡ (if j == c then map_option f (find (is_conf c) confs) else find (is_conf j) confs)
get_config-change f confs c j same = elim (Bool-cases (j == c)) [
  | inl eq ↦
      let e : j ≡ c = (==_iff j c).0 eq in
      rw (eq, e)
        (find-at_first (is_conf c) f confs
          (λ x found. ground (arith, same x, find-test (is_conf c) confs {x = x} found)))
  | inr ne ↦ rw ne (
      find-at_first_other (is_conf j) (is_conf c) f confs
        (λ x hit. (ground arith, ground (arith, same x))))
]

-- Where a configuration has the value `c`, `usb_dev_add_if_grp` succeeds, and a search finds this
-- configuration changed as `usb_conf_add_if_grp` changes it, and every other one as it was.
pub get_config-add_if_grp :
    (dev : UsbDev) (g : UsbIfGroup) (c j : ℕ) {conf : UsbConf}
    → usb_dev_get_config (some dev) c ≡ some conf
    → (dev' : UsbDev) × (usb_dev_add_if_grp (some dev) c (some g) ≡ some dev')
      × (usb_dev_get_config (some dev') j ≡ (
          if j == c
          then usb_conf_add_if_grp (some conf) (some g)
          else usb_dev_get_config (some dev) j))
unfolding usb_dev_add_if_grp usb_dev_get_config usb_conf_add_if_grp
get_config-add_if_grp dev g c j e = (
  record dev {
    configurations = at_first (is_conf c) (λ k. conf_with_group k g) dev.configurations;
  },
  ground arith,
  ground (arith, get_config-change (λ k. conf_with_group k g) dev.configurations c j (λ k. refl)),
)

-- The inner search, after the interface that it finds has got an endpoint.
if_in_group-with_ep :
    (n a : ℕ) (ep : UsbEp) (g : UsbIfGroup)
    → if_in_group n a (group_with_ep n a ep g)
      ≡ map_option (λ i. if_with_ep i ep) (if_in_group n a g)
if_in_group-with_ep n a ep g = ground (
  arith,
  find-at_first (is_if n a) (λ i. if_with_ep i ep) g.interfaces
      (λ x found. find-test (is_if n a) g.interfaces {x = x} found),
)

if_in_groups-with_ep :
    (n a : ℕ) (ep : UsbEp) (gs : List UsbIfGroup)
    → if_in_groups n a (at_first (has_if n a) (group_with_ep n a ep) gs)
      ≡ map_option (λ i. if_with_ep i ep) (if_in_groups n a gs)
unfolding if_in_groups at_first
if_in_groups-with_ep n a ep [] = refl
if_in_groups-with_ep n a ep (g ∷ gs) =
    ground (arith, if_in_group-with_ep n a ep g, if_in_groups-with_ep n a ep gs)

get_if-with_ep :
    (dev : UsbDev) (c n a : ℕ) (ep : UsbEp)
    → usb_dev_get_if
        (some (record dev {
          configurations = at_first (is_conf c) (conf_with_ep n a ep) dev.configurations;
        }))
        c
        n
        a
      ≡ map_option (λ i. if_with_ep i ep) (usb_dev_get_if (some dev) c n a)
unfolding usb_dev_get_if usb_dev_get_config usb_conf_get_if
get_if-with_ep dev c n a ep = elim (Option-cases (find (is_conf c) dev.configurations)) [
  | inl miss ↦ rw (found, miss)
  | inr (k, hit) ↦ rw (found, hit) (if_in_groups-with_ep n a ep k.interfaces)
]
  where
    found :
        find (is_conf c) (at_first (is_conf c) (conf_with_ep n a ep) dev.configurations)
        ≡ map_option (conf_with_ep n a ep) (find (is_conf c) dev.configurations)
    found =
        ground (arith, get_config-change (conf_with_ep n a ep) dev.configurations c c (λ k. refl))

-- Where there is an interface with this configuration, number and alternate setting,
-- `usb_dev_add_ep` succeeds, and a search for any endpoint of this interface finds what it found
-- before, and where it found nothing, the new endpoint if that is the one sought.
pub get_ep-add_ep :
    (dev : UsbDev) (c n a : ℕ) (ep : UsbEp) (idx dir : ℕ) {i : UsbIf}
    → usb_dev_get_if (some dev) c n a ≡ some i
    → (dev' : UsbDev) × (usb_dev_add_ep (some dev) c n a (some ep) ≡ some dev')
      × (usb_dev_get_ep (some dev') c n a idx dir
          ≡ or_else
              (usb_dev_get_ep (some dev) c n a idx dir)
              (if is_ep idx dir ep then some ep else none))
unfolding usb_dev_add_ep usb_dev_get_ep usb_if_get_ep
get_ep-add_ep dev c n a ep idx dir {i} e = (
  record dev { configurations = at_first (is_conf c) (conf_with_ep n a ep) dev.configurations },
  ground arith,
  rw (get_if-with_ep dev c n a ep, e) (find-link_last (is_ep idx dir) i.endpoints ep),
)

-- Where no configuration has the value, neither a group nor an endpoint is added.
pub additions_fail :
    (dev : UsbDev) (c n a : ℕ) (g : UsbIfGroup) (ep : UsbEp)
    → usb_dev_get_config (some dev) c ≡ none
    → (usb_dev_add_if_grp (some dev) c (some g) ≡ none)
      × (usb_dev_add_ep (some dev) c n a (some ep) ≡ none)
unfolding usb_dev_add_if_grp usb_dev_add_ep usb_dev_get_if usb_conf_get_if
additions_fail dev c n a g ep e = (ground arith, ground arith)
