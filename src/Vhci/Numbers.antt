-- ===== src/Vhci/Numbers.antt =====
-- The numbers that `vhci_register_dev` gives to the devices.
use embedded_usbip.Prelude.{
  ℕ, zero, suc, ◌+◌, ◌-◌, ◌*◌, ◌^◌, ◌≤◌, ◌<◌, ◌≡◌, ◌≢◌, ◌⊎◌, inl, inr, refl, sym, ap, ◌∙◌, subst,
  false, Option, some, [], ◌∷◌, ◌++◌, arith, length, length-append, lt-or-le, Option-cases,
}
use embedded_usbip.LinkedList.{Heap, LinkedList}
use embedded_usbip.LinkedList.Shape.{Cells, item_at, has, IsList}
use embedded_usbip.UsbDev.{UsbDev}
use embedded_usbip.Vhci.{
  VhciHandle, Store, update, next_numbers, Registered, registered, invalid, out_of_memory,
  vhci_register_dev,
}
use embedded_usbip.Vhci.Devices.{device_at}
use embedded_usbip.Vhci.Register.{
  taken, Frame, device_at-Frame, named_at, store_with, store_without, Outcome, done, full, null,
  register_lem, unreadable,
}

item_at-append :
    (xs : Cells) (b d i : ℕ) → i < length xs → item_at (xs ++ ((b, d) ∷ [])) i ≡ item_at xs i
item_at-append [] b d i lt = absurd (omega arith)
item_at-append ((c, f) ∷ xs) b d zero lt = refl
item_at-append ((c, f) ∷ xs) b d (suc i) lt = item_at-append xs b d i (omega arith)

item_at-append_end : (xs : Cells) (b d i : ℕ) → i ≡ length xs → item_at (xs ++ ((b, d) ∷ [])) i ≡ d
item_at-append_end [] b d zero e = refl
item_at-append_end [] b d (suc i) e = absurd (omega arith)
item_at-append_end ((c, f) ∷ xs) b d zero e = absurd (omega arith)
item_at-append_end ((c, f) ∷ xs) b d (suc i) e = item_at-append_end xs b d i (omega arith)

-- The numbers of a device as one number.
abbrev pub number : UsbDev → ℕ
number d = 65535 * d.busnum + d.devnum

abbrev pub next_number : VhciHandle → ℕ
next_number h = 65535 * h.last_busnum + h.last_devnum

-- Every device of the list has its own numbers, below the next ones.
pub record IsNumbered (s : Store) (h : VhciHandle) (xs : Cells) : Type 0 where
  pub list : IsList s.heap h.devices xs
  pub small : h.last_devnum ≤ 65535
  pub device : (i : ℕ) → i < length xs → (d : UsbDev) × (device_at s (item_at xs i) ≡ some d)
  pub below :
      (i : ℕ) (d : UsbDev)
      → i < length xs
      → device_at s (item_at xs i) ≡ some d
      → (d.devnum < 65535) × (number d < next_number h)
  pub increasing :
      (i j : ℕ) (d e : UsbDev)
      → i < j
      → j < length xs
      → device_at s (item_at xs i) ≡ some d
      → device_at s (item_at xs j) ≡ some e
      → number d < number e

-- The device at `dev` is not registered, and the `vusb_dev_t` at `vdev` and the node are new.
pub record IsFresh (s : Store) (xs : Cells) (vdev node dev : ℕ) : Type 0 where
  pub vdev_new : (i : ℕ) → i < length xs → item_at xs i ≢ vdev
  pub dev_new : (i : ℕ) → i < length xs → s.vdevs (item_at xs i) ≢ some dev
  pub node_new : has node xs ≡ false

-- The numbers are new: not below the next number, and the next number is then higher.
next_numbers_lem :
    (h : VhciHandle)
    → h.last_devnum ≤ 65535
    → h.last_busnum < 2 ^ 32 - 1
    → ((next_numbers h).last_devnum < 65535)
      × (next_number h ≤ 65535 * (next_numbers h).last_busnum + (next_numbers h).last_devnum)
      × (65535 * (next_numbers h).last_busnum + (next_numbers h).last_devnum
          < next_number (taken h))
      × ((taken h).last_devnum ≤ 65535)
unfolding next_numbers
next_numbers_lem h small room = elim (lt-or-le h.last_devnum 65535) [
  | inl lt ↦ ground arith
  | inr ge ↦ ground arith
]

module _ {s : Store} {h : VhciHandle} {xs : Cells} {vdev node dev : ℕ} (is : IsNumbered s h xs)
    (fresh : IsFresh s xs vdev node dev) (room : h.last_busnum < 2 ^ 32 - 1) where
  -- The devices of the list are as they were.
  same_devices :
      {s' : Store}
      → Frame s s' vdev dev
      → (i : ℕ) → i < length xs
      → device_at s' (item_at xs i) ≡ device_at s (item_at xs i)
  same_devices fr i lt =
      device_at-Frame (item_at xs i) fr (fresh.vdev_new i lt) (fresh.dev_new i lt)

  full-IsNumbered :
      (d : UsbDev) (vdevs : ℕ → Option ℕ)
      → ((p : ℕ) → p ≢ vdev → vdevs p ≡ s.vdevs p)
      → IsNumbered (store_without s h dev d vdevs) (taken h) xs
  unfolding update
  full-IsNumbered d vdevs keep =
      let fr : Frame s (store_without s h dev d vdevs) vdev dev = record {
        other_vdevs = keep;
        other_devs = λ p ne. ground (arith, ne);
      } in
      let (small, ge, lt', small') = next_numbers_lem h is.small room in
      record {
        list = is.list;
        small = small';
        device = λ i lt. let (e, at) = is.device i lt in (e, same_devices fr i lt ∙ at);
        below = λ i e lt at.
            let (a, b) = is.below i e lt (sym (same_devices fr i lt) ∙ at) in (a, omega arith);
        increasing = λ i j e f ij lt at at'.
            is.increasing i j e f ij lt (sym (same_devices fr i (omega arith)) ∙ at)
              (sym (same_devices fr j lt) ∙ at');
      }

  module _ (d : UsbDev) (l : LinkedList) (heap : Heap)
      (is' : IsList heap l (xs ++ ((node, vdev) ∷ []))) where
    old_device :
        (i : ℕ)
        → i < length xs
        → device_at (store_with s h vdev dev d heap) (item_at (xs ++ ((node, vdev) ∷ [])) i)
          ≡ device_at s (item_at xs i)
    unfolding update
    old_device i lt =
        ap (device_at (store_with s h vdev dev d heap)) (item_at-append xs node vdev i lt)
        ∙ same_devices
            (record {
              other_vdevs = λ p ne. ground (arith, ne);
              other_devs = λ p ne. ground (arith, ne);
            })
            i lt

    new_device :
        (i : ℕ)
        → i ≡ length xs
        → device_at (store_with s h vdev dev d heap) (item_at (xs ++ ((node, vdev) ∷ [])) i)
          ≡ some (named_at h d)
    unfolding device_at update
    new_device i e =
        ap (device_at (store_with s h vdev dev d heap)) (item_at-append_end xs node vdev i e)
        ∙ ground arith

    length-more : length (xs ++ ((node, vdev) ∷ [])) ≡ length xs + 1
    length-more = omega (arith, length-append xs ((node, vdev) ∷ []))

    old_or_new :
        (i : ℕ) → i < length (xs ++ ((node, vdev) ∷ [])) → (i < length xs) ⊎ (i ≡ length xs)
    old_or_new i lt = ground (arith, length-more)

    numbered_new :
        (i : ℕ) (e : UsbDev)
        → i ≡ length xs
        → device_at (store_with s h vdev dev d heap) (item_at (xs ++ ((node, vdev) ∷ [])) i)
          ≡ some e
        → (e.busnum ≡ (next_numbers h).last_busnum) × (e.devnum ≡ (next_numbers h).last_devnum)
    numbered_new i e at-end at = ground (arith, new_device i at-end)

    below_done :
        (i : ℕ) (e : UsbDev)
        → (i < length xs) ⊎ (i ≡ length xs)
        → device_at (store_with s h vdev dev d heap) (item_at (xs ++ ((node, vdev) ∷ [])) i)
          ≡ some e
        → (e.devnum < 65535) × (number e < next_number (taken h))
    below_done i e (inl lt) at =
        let (small, ge, lt', small') = next_numbers_lem h is.small room in
        let (a, b) = is.below i e lt (sym (old_device i lt) ∙ at) in (a, omega arith)
    below_done i e (inr end) at =
        let (small, ge, lt', small') = next_numbers_lem h is.small room in
        let (b, n) = numbered_new i e end at in (omega arith, omega arith)

    increasing_done :
        (i j : ℕ) (e f : UsbDev)
        → i < j
        → (j < length xs) ⊎ (j ≡ length xs)
        → device_at (store_with s h vdev dev d heap) (item_at (xs ++ ((node, vdev) ∷ [])) i)
          ≡ some e
        → device_at (store_with s h vdev dev d heap) (item_at (xs ++ ((node, vdev) ∷ [])) j)
          ≡ some f
        → number e < number f
    increasing_done i j e f ij (inl lt) at at' =
        is.increasing i j e f ij lt (sym (old_device i (omega arith)) ∙ at)
          (sym (old_device j lt) ∙ at')
    increasing_done i j e f ij (inr end) at at' =
        let (small, ge, lt', small') = next_numbers_lem h is.small room in
        let (a, b) = is.below i e (omega arith) (sym (old_device i (omega arith)) ∙ at) in
        let (c, n) = numbered_new j f end at' in omega arith

    device_done :
        (i : ℕ)
        → (i < length xs) ⊎ (i ≡ length xs)
        → (e : UsbDev) × (device_at
              (store_with s h vdev dev d heap)
              (item_at (xs ++ ((node, vdev) ∷ [])) i)
            ≡ some e)
    device_done i (inl lt) = let (e, at) = is.device i lt in (e, old_device i lt ∙ at)
    device_done i (inr end) = (named_at h d, new_device i end)

    done-IsNumbered :
        IsNumbered
          (store_with s h vdev dev d heap)
          (record (taken h) { devices = l })
          (xs ++ ((node, vdev) ∷ []))
    done-IsNumbered =
        let (small, ge, lt', small') = next_numbers_lem h is.small room in
        record {
          list = is';
          small = small';
          device = λ i lt. device_done i (old_or_new i lt);
          below = λ i e lt at. below_done i e (old_or_new i lt) at;
          increasing = λ i j e f ij lt at at'. increasing_done i j e f ij (old_or_new j lt) at at';
        }

-- What holds after a call, by its result.
abbrev pub After : Cells → (vdev node : ℕ) → Registered → Type 0
After xs vdev node (registered h s) = IsNumbered s h (xs ++ ((node, vdev) ∷ []))
After xs vdev node invalid = Unit
After xs vdev node (out_of_memory h s) = IsNumbered s h xs

Outcome-After :
    {s : Store} {h : VhciHandle} {xs : Cells} {vdev node dev : ℕ} {r : Registered}
    → Outcome s h xs vdev node dev r
    → IsNumbered s h xs
    → IsFresh s xs vdev node dev
    → h.last_busnum < 2 ^ 32 - 1
    → After xs vdev node r
Outcome-After (done d l heap e is') is fresh room = done-IsNumbered is fresh room d l heap is'
Outcome-After (full d vdevs e keep) is fresh room = full-IsNumbered is fresh room d vdevs keep
Outcome-After (null z) is fresh room = tt

pub register-After :
    {s : Store} {h : VhciHandle} {xs : Cells} {vdev node dev : ℕ} {r : Registered}
    → vhci_register_dev vdev node (some h) dev s ≡ some r
    → IsNumbered s h xs
    → IsFresh s xs vdev node dev
    → h.last_busnum < 2 ^ 32 - 1
    → After xs vdev node r
register-After {s} {h} {xs} {vdev} {node} {dev} {r} e is fresh room =
    elim (Option-cases (s.devs dev)) [
      | inl none_there ↦ subst (After xs vdev node) (unreadable s h vdev node dev r none_there e) tt
      | inr (d, there) ↦
          let (r', ran, outcome) = register_lem vdev node dev is.list fresh.node_new d there in
          subst (After xs vdev node) {x = r'} {y = r} (cc (ran, e))
            (Outcome-After outcome is fresh room)
    ]
