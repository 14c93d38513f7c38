-- ===== src/Urb/Filling.antt =====
-- How the loops of `handle_get_desc` end, and the status that they leave.
use embedded_usbip.Prelude.{
  ℕ, ◌+◌, ◌≡◌, ◌≢◌, ◌⊎◌, inl, inr, refl, subst, Option, some, none, List, [], ◌∷◌, length, arith,
  Option-cases, Bool-cases, ltb, neg_int,
}
use embedded_usbip.UsbDev.{UsbEp, UsbIf, UsbIfGroup}
use embedded_usbip.Urb.{Urb, write_at, with_status}
use embedded_usbip.Urb.DescType
use embedded_usbip.Urb.Errno
use embedded_usbip.Urb.GetDesc.{
  Filling, going, returned, write_hdr, put_desc, put_eps, put_ifs, put_groups, ep_desc_bytes,
  if_desc_bytes,
}

pub write_at_status :
    (urb u : Urb) (off : ℕ) (bytes : List ℕ)
    → write_at urb off bytes ≡ some u
    → u.status ≡ urb.status
unfolding write_at
write_at_status urb u off bytes e = ground arith

pub write_hdr_status :
    (urb u : Urb) (dest len b_type : ℕ)
    → write_hdr urb dest len b_type ≡ some u
    → u.status ≡ urb.status
unfolding write_hdr
write_hdr_status urb u dest len b_type e = write_at_status urb u dest (len ∷ b_type ∷ []) e

abbrev pub status_of : Filling → ℕ
status_of (going u dest remaining) = u.status
status_of (returned u) = u.status

-- A status that is not 0 stays so.
put_desc_fails :
    (urb : Urb) (dest remaining b_type : ℕ) (body : List ℕ) (f : Filling)
    → urb.status ≢ 0
    → put_desc urb dest remaining b_type body ≡ some f
    → status_of f ≢ 0
unfolding put_desc
put_desc_fails urb dest remaining b_type body f bad e =
    elim (Option-cases (write_hdr urb dest (length body + 2) b_type)) [
      | inl fault ↦ ground (arith, fault)
      | inr (u, ok) ↦ elim (Option-cases (write_at u (dest + 2) body)) [
        | inl fault ↦
            ground (arith, ok, fault, write_hdr_status urb u dest (length body + 2) b_type)
        | inr (v, ok') ↦ ground (
          arith,
          ok,
          ok',
          write_hdr_status urb u dest (length body + 2) b_type,
          write_at_status u v (dest + 2) body,
        )
      ]
    ]

put_eps_fails :
    (eps : List UsbEp) (urb : Urb) (dest remaining : ℕ) (f : Filling)
    → urb.status ≢ 0
    → put_eps eps urb dest remaining ≡ some f
    → status_of f ≢ 0
unfolding put_eps
put_eps_fails [] urb dest remaining f bad e = ground arith
put_eps_fails (ep ∷ eps) urb dest remaining f bad e =
    elim (Option-cases (put_desc urb dest remaining DescType.ep (ep_desc_bytes ep.desc))) [
      | inl fault ↦ ground (arith, fault)
      | inr (returned u, ok) ↦ ground (
        arith,
        ok,
        put_desc_fails urb dest remaining DescType.ep (ep_desc_bytes ep.desc) (returned u),
      )
      | inr (going u d r, ok) ↦ ground (
        arith,
        ok,
        put_desc_fails urb dest remaining DescType.ep (ep_desc_bytes ep.desc) (going u d r),
        put_eps_fails eps u d r f,
      )
    ]

put_desc_returned :
    (urb : Urb) (dest remaining b_type : ℕ) (body : List ℕ) (v : Urb)
    → put_desc urb dest remaining b_type body ≡ some (returned v)
    → v.status ≡ neg_int Errno.enomem
unfolding put_desc
put_desc_returned urb dest remaining b_type body v e =
    elim (Option-cases (write_hdr urb dest (length body + 2) b_type)) [
      | inl fault ↦ ground (arith, fault)
      | inr (u, ok) ↦ elim (Option-cases (write_at u (dest + 2) body)) [
        | inl fault ↦ ground (arith, ok, fault)
        | inr (w, ok') ↦ ground (arith, ok, ok')
      ]
    ]

put_eps_returned :
    (eps : List UsbEp) (urb : Urb) (dest remaining : ℕ) (v : Urb)
    → put_eps eps urb dest remaining ≡ some (returned v)
    → v.status ≡ neg_int Errno.enomem
unfolding put_eps
put_eps_returned [] urb dest remaining v e = ground arith
put_eps_returned (ep ∷ eps) urb dest remaining v e =
    elim (Option-cases (put_desc urb dest remaining DescType.ep (ep_desc_bytes ep.desc))) [
      | inl fault ↦ ground (arith, fault)
      | inr (returned u, ok) ↦
          ground
            (arith, ok, put_desc_returned urb dest remaining DescType.ep (ep_desc_bytes ep.desc) u)
      | inr (going u d r, ok) ↦ ground (arith, ok, put_eps_returned eps u d r v)
    ]

-- A result that is a fault or a return with -ENOMEM.
abbrev pub Stopped : Option Filling → Type 0
Stopped o = (o ≡ none) ⊎ ((u : Urb) × (o ≡ some (returned u)) × (u.status ≡ neg_int Errno.enomem))

-- The loop over the interfaces of a group does not come to its end.
put_ifs-Stopped :
    (is : List UsbIf) (urb : Urb) (dest remaining : ℕ) → Stopped (put_ifs is urb dest remaining)
unfolding put_ifs
put_ifs-Stopped [] urb dest remaining = elim (Option-cases (write_hdr urb dest 9 DescType.if_)) [
  | inl fault ↦ inl (ground (arith, fault))
  | inr (u, ok) ↦ elim (Bool-cases (ltb remaining 9)) [
    | inl full ↦ inr (with_status (neg_int Errno.enomem) u, ground (arith, ok, full), refl)
    | inr room ↦ inl (ground (arith, ok, room))
  ]
]
put_ifs-Stopped (i ∷ is) urb dest remaining =
    elim (Option-cases (put_desc urb dest remaining DescType.if_ (if_desc_bytes i.desc))) [
      | inl fault ↦ inl (ground (arith, fault))
      | inr (returned u, ok) ↦ inr (
        u,
        ground (arith, ok),
        put_desc_returned urb dest remaining DescType.if_ (if_desc_bytes i.desc) u ok,
      )
      | inr (going u d r, ok) ↦ elim (Option-cases (put_eps i.endpoints u d r)) [
        | inl fault ↦ inl (ground (arith, ok, fault))
        | inr (returned v, ok') ↦
            inr (v, ground (arith, ok, ok'), put_eps_returned i.endpoints u d r v ok')
        | inr (going v e q, ok') ↦
            subst Stopped {x = put_ifs is v e q} (ground (arith, ok, ok'))
              (put_ifs-Stopped is v e q)
      ]
    ]

pub put_groups-Stopped :
    (g : UsbIfGroup) (gs : List UsbIfGroup) (urb : Urb) (dest remaining : ℕ)
    → Stopped (put_groups (g ∷ gs) urb dest remaining)
unfolding put_groups
put_groups-Stopped g gs urb dest remaining =
    elim (put_ifs-Stopped g.interfaces urb dest remaining) [
      | inl fault ↦ inl (ground (arith, fault))
      | inr (u, stop, full) ↦ inr (u, ground (arith, stop), full)
    ]

pub put_groups_fails :
    (gs : List UsbIfGroup) (urb : Urb) (dest remaining : ℕ) (f : Filling)
    → urb.status ≢ 0
    → put_groups gs urb dest remaining ≡ some f
    → status_of f ≢ 0
unfolding put_groups
put_groups_fails [] urb dest remaining f bad e = ground arith
put_groups_fails (g ∷ gs) urb dest remaining f bad e =
    elim (put_groups-Stopped g gs urb dest remaining) [
      | inl fault ↦ ground (arith, fault)
      | inr (u, stop, full) ↦ ground (arith, stop, full)
    ]
