-- ===== src/UsbDev/Counters.antt =====
-- The counters that the descriptors carry agree with what the device holds.
use embedded_usbip.Prelude.{
  ℕ, ◌+◌, ◌%◌, ◌^◌, ◌≡◌, refl, some, List, [], ◌∷◌, arith, length, link_last, at_first,
  length-link_last, length-at_first, Bool, if◌then◌else◌, Bool-cases, inl, inr, sym, ◌∙◌, ap,
}
use mathlib.Core.Path.{subst}
use mathlib.Core.Option.{some-injective}
use embedded_usbip.UsbDev.{
  DevDesc, UsbEp, UsbIf, UsbIfGroup, UsbConf, UsbDev, is_conf, is_if, usb_dev_create,
}
use embedded_usbip.UsbDev.Add.{
  is_empty, reset_conf, usb_dev_add_config, conf_with_group, usb_dev_add_if_grp, usb_if_grp_add,
  usb_if_add_ep, if_with_ep, group_with_ep, has_if, conf_with_ep, usb_dev_add_ep,
}

abbrev pub All : {A : Type 0} → (A → Type 0) → List A → Type 0
All P [] = Unit
All P (x ∷ xs) = P x × All P xs

-- The sum of the groups' counts.
abbrev pub total : List UsbIfGroup → ℕ
total [] = 0
total (g ∷ gs) = g.if_count + total gs

abbrev pub IfCounts : UsbIf → Type 0
IfCounts i = i.desc.b_num_endpoints ≡ length i.endpoints % 256

abbrev pub GroupCounts : UsbIfGroup → Type 0
GroupCounts g = (g.if_count ≡ length g.interfaces % 2 ^ 64) × All IfCounts g.interfaces

abbrev pub ConfCounts : UsbConf → Type 0
ConfCounts conf =
    (conf.desc.b_num_interfaces ≡ total conf.interfaces % 256) × All GroupCounts conf.interfaces

abbrev pub DevCounts : UsbDev → Type 0
DevCounts dev =
    (dev.desc.b_num_configurations ≡ length dev.configurations % 256)
    × All ConfCounts dev.configurations

module _ {A : Type 0} (P : A → Type 0) where
  All-link_last : (xs : List A) (x : A) → All P xs → P x → All P (link_last xs x)
  unfolding link_last
  All-link_last [] x a p = (p, tt)
  All-link_last (y ∷ ys) x a p = (a.0, All-link_last ys x a.1 p)

  All-at_first :
      (test : A → Bool) (f : A → A) (xs : List A)
      → ((x : A) → P x → P (f x))
      → All P xs
      → All P (at_first test f xs)
  unfolding at_first
  All-at_first test f [] keep a = tt
  All-at_first test f (x ∷ xs) keep a = elim (Bool-cases (test x)) [
    | inl hit ↦ rw hit (keep x a.0, a.1)
    | inr miss ↦ rw miss (a.0, All-at_first test f xs keep a.1)
  ]

total-link_last :
    (gs : List UsbIfGroup) (g : UsbIfGroup) → total (link_last gs g) ≡ total gs + g.if_count
unfolding link_last
total-link_last [] g = omega arith
total-link_last (h ∷ hs) g = omega (arith, total-link_last hs g)

total-at_first :
    (test : UsbIfGroup → Bool) (f : UsbIfGroup → UsbIfGroup) (gs : List UsbIfGroup)
    → ((g : UsbIfGroup) → (f g).if_count ≡ g.if_count)
    → total (at_first test f gs) ≡ total gs
unfolding at_first
total-at_first test f [] same = refl
total-at_first test f (g ∷ gs) same = ground (arith, same g, total-at_first test f gs same)

create-DevCounts : (desc : DevDesc) (lang_id : ℕ) → DevCounts (usb_dev_create desc lang_id)
unfolding usb_dev_create
create-DevCounts desc lang_id = (refl, tt)

next_count :
    (xs : List UsbConf) (n : ℕ)
    → n ≡ length xs % 256
    → (if is_empty xs then 1 else (n + 1) % 256) ≡ (length xs + 1) % 256
next_count [] n h = refl
next_count (x ∷ xs) n h = omega arith

conf_with_group-ConfCounts :
    (g : UsbIfGroup)
    → GroupCounts g
    → (conf : UsbConf) → ConfCounts conf
    → ConfCounts (conf_with_group conf g)
conf_with_group-ConfCounts g k conf h = (
  omega (arith, total-link_last conf.interfaces g),
  All-link_last GroupCounts conf.interfaces g h.1 k,
)

if_with_ep-IfCounts : (ep : UsbEp) (i : UsbIf) → IfCounts i → IfCounts (if_with_ep i ep)
if_with_ep-IfCounts ep i h = omega (arith, length-link_last i.endpoints ep)

group_with_ep-GroupCounts :
    (n a : ℕ) (ep : UsbEp) (g : UsbIfGroup) → GroupCounts g → GroupCounts (group_with_ep n a ep g)
group_with_ep-GroupCounts n a ep g h = (
  omega (arith, length-at_first (is_if n a) (λ i. if_with_ep i ep) g.interfaces),
  All-at_first IfCounts (is_if n a) (λ i. if_with_ep i ep) g.interfaces (if_with_ep-IfCounts ep)
      h.1,
)

conf_with_ep-ConfCounts :
    (n a : ℕ) (ep : UsbEp) (conf : UsbConf)
    → ConfCounts conf
    → ConfCounts (conf_with_ep n a ep conf)
conf_with_ep-ConfCounts n a ep conf h = (
  h.0
      ∙ ap (λ t. t % 256)
          (sym (total-at_first (has_if n a) (group_with_ep n a ep) conf.interfaces (λ g. refl))),
  All-at_first GroupCounts (has_if n a) (group_with_ep n a ep) conf.interfaces
      (group_with_ep-GroupCounts n a ep) h.1,
)

-- The interfaces that `usb_if_add_ep` builds from one without endpoints, whose counter is 0.
pub data BuiltIf : UsbIf → Type 0 where
  no_eps : (i : UsbIf) → i.endpoints ≡ [] → i.desc.b_num_endpoints ≡ 0 → BuiltIf i
  with_ep :
      {i i' : UsbIf} (ep : UsbEp)
      → BuiltIf i
      → usb_if_add_ep (some i) (some ep) ≡ some i'
      → BuiltIf i'

-- The groups that `usb_if_grp_add` builds from an empty one, interface by interface.
pub data BuiltGroup : UsbIfGroup → Type 0 where
  zeroed : (alt : ℕ) → BuiltGroup (record { interfaces = []; cur_alt_set = alt; if_count = 0 })
  add_if :
      {g g' : UsbIfGroup} (i : UsbIf)
      → BuiltGroup g
      → BuiltIf i
      → usb_if_grp_add (some g) (some i) ≡ some g'
      → BuiltGroup g'

-- The devices that the functions of dev.c build: a configuration is added before its groups, and a
-- group after its interfaces.
pub data BuiltDev : UsbDev → Type 0 where
  create : (desc : DevDesc) (lang_id : ℕ) → BuiltDev (usb_dev_create desc lang_id)
  add_config :
      {dev dev' : UsbDev} (conf : UsbConf)
      → BuiltDev dev
      → conf.interfaces ≡ []
      → usb_dev_add_config (some dev) (some conf) ≡ some dev'
      → BuiltDev dev'
  add_if_grp :
      {dev dev' : UsbDev} (c : ℕ) (g : UsbIfGroup)
      → BuiltDev dev
      → BuiltGroup g
      → usb_dev_add_if_grp (some dev) c (some g) ≡ some dev'
      → BuiltDev dev'
  add_ep :
      {dev dev' : UsbDev} (c n a : ℕ) (ep : UsbEp)
      → BuiltDev dev
      → usb_dev_add_ep (some dev) c n a (some ep) ≡ some dev'
      → BuiltDev dev'

next_group :
    (is : List UsbIf) (alt n : ℕ) (i : UsbIf) {g' : UsbIfGroup}
    → GroupCounts (record { interfaces = is; cur_alt_set = alt; if_count = n })
    → IfCounts i
    → usb_if_grp_add (some (record { interfaces = is; cur_alt_set = alt; if_count = n })) (some i)
      ≡ some g'
    → GroupCounts g'
unfolding usb_if_grp_add link_last
next_group [] alt n i h k r = subst GroupCounts (some-injective _ _ r) (refl, (k, tt))
next_group (j ∷ js) alt n i h k r =
    subst GroupCounts (some-injective _ _ r)
      (omega (arith, length-link_last js i), (h.1.0, All-link_last IfCounts js i h.1.1 k))

BuiltIf-IfCounts : {i : UsbIf} → BuiltIf i → IfCounts i
unfolding usb_if_add_ep
BuiltIf-IfCounts (no_eps i none_there zero) = zero ∙ ap (λ es. length es % 256) (sym none_there)
BuiltIf-IfCounts (with_ep {i} ep b e) =
    subst IfCounts (some-injective _ _ e) (if_with_ep-IfCounts ep i (BuiltIf-IfCounts b))

BuiltGroup-GroupCounts : {g : UsbIfGroup} → BuiltGroup g → GroupCounts g
BuiltGroup-GroupCounts (zeroed alt) = (refl, tt)
BuiltGroup-GroupCounts (add_if {g} i b k r) =
    next_group g.interfaces g.cur_alt_set g.if_count i (BuiltGroup-GroupCounts b)
      (BuiltIf-IfCounts k) r

config_step :
    (dev : UsbDev) (conf : UsbConf)
    → DevCounts dev
    → conf.interfaces ≡ []
    → (dev' : UsbDev) → usb_dev_add_config (some dev) (some conf) ≡ some dev'
    → DevCounts dev'
unfolding usb_dev_add_config
config_step dev conf h bare dev' e = subst DevCounts (some-injective _ _ e) (
  next_count dev.configurations dev.desc.b_num_configurations h.0
      ∙ ap (λ n. n % 256) (sym (length-link_last dev.configurations (reset_conf conf))),
  All-link_last ConfCounts dev.configurations (reset_conf conf) h.1
      (subst (λ gs. (0 ≡ total gs % 256) × All GroupCounts gs) (sym bare) (refl, tt)),
)

abbrev with_confs : UsbDev → List UsbConf → UsbDev
with_confs dev confs = record dev { configurations = confs }

change_step :
    (dev : UsbDev) (c : ℕ) (f : UsbConf → UsbConf)
    → DevCounts dev
    → ((conf : UsbConf) → ConfCounts conf → ConfCounts (f conf))
    → DevCounts (with_confs dev (at_first (is_conf c) f dev.configurations))
change_step dev c f h keep = (
  omega (arith, length-at_first (is_conf c) f dev.configurations),
  All-at_first ConfCounts (is_conf c) f dev.configurations keep h.1,
)

if_grp_step :
    (dev : UsbDev) (c : ℕ) (g : UsbIfGroup)
    → DevCounts dev
    → GroupCounts g
    → (dev' : UsbDev) → usb_dev_add_if_grp (some dev) c (some g) ≡ some dev'
    → DevCounts dev'
unfolding usb_dev_add_if_grp
if_grp_step dev c g h k dev' e =
    subst DevCounts
      {x = with_confs dev
        (at_first (is_conf c) (λ conf. conf_with_group conf g) dev.configurations)}
      {y = dev'} (ground arith)
      (change_step dev c (λ conf. conf_with_group conf g) h (conf_with_group-ConfCounts g k))

ep_step :
    (dev : UsbDev) (c n a : ℕ) (ep : UsbEp)
    → DevCounts dev
    → (dev' : UsbDev) → usb_dev_add_ep (some dev) c n a (some ep) ≡ some dev'
    → DevCounts dev'
unfolding usb_dev_add_ep
ep_step dev c n a ep h dev' e =
    subst DevCounts
      {x = with_confs dev (at_first (is_conf c) (conf_with_ep n a ep) dev.configurations)}
      {y = dev'} (ground arith)
      (change_step dev c (conf_with_ep n a ep) h (conf_with_ep-ConfCounts n a ep))

-- In a device that the functions of dev.c build, where an interface begins without endpoints and
-- with the endpoint counter 0, a group begins without interfaces and with the count 0 and has its
-- interfaces before it is added, and a configuration is added without groups: every counter of a
-- descriptor is the number of the things that it counts, modulo 256: configurations, interfaces of
-- a configuration, endpoints of an interface; and the count of each group is its number of
-- interfaces, modulo 2^64.
pub BuiltDev-DevCounts : {dev : UsbDev} → BuiltDev dev → DevCounts dev
BuiltDev-DevCounts (create desc lang_id) = create-DevCounts desc lang_id
BuiltDev-DevCounts (add_config {dev} {dev'} conf b bare e) =
    config_step dev conf (BuiltDev-DevCounts b) bare dev' e
BuiltDev-DevCounts (add_if_grp {dev} {dev'} c g b k e) =
    if_grp_step dev c g (BuiltDev-DevCounts b) (BuiltGroup-GroupCounts k) dev' e
BuiltDev-DevCounts (add_ep {dev} {dev'} c n a ep b e) =
    ep_step dev c n a ep (BuiltDev-DevCounts b) dev' e
