-- ===== src/Prelude/Memory.antt =====
-- A byte buffer of known size, and `memcpy` into and out of it. A copy that would leave the buffer
-- is undefined behaviour in C, and is `none` here.
use Prim.Native.Nat.{ℕ, ◌+◌, ◌-◌, ◌≤◌}
use mathlib.Core.Path.{◌≡◌}
use mathlib.Core.List.{List, ◌++◌}
use mathlib.Core.Option.{Option, none, some}
use native.Mathlib.Omega.{arith}
use embedded_usbip.Prelude.Tests.{ltb, leb, if◌then◌else◌}
use embedded_usbip.Prelude.Lists.{
  length, get_elem?, take, drop, length-append, length-take, length-drop, get_elem?-append,
  get_elem?-take, get_elem?-drop,
}

module _ {A : Type 0} where
  -- `buf` with `src` written over it from `off` on.
  unfoldable pub splice : ℕ → List A → List A → List A
  splice off src buf = take off buf ++ (src ++ drop (off + length src) buf)

  pub length-splice :
      (off : ℕ) (src buf : List A)
      → off + length src ≤ length buf
      → length (splice off src buf) ≡ length buf
  unfolding splice
  length-splice off src buf h = omega (
    arith,
    length-append (take off buf) (src ++ drop (off + length src) buf),
    length-append src (drop (off + length src) buf),
    length-take off buf,
    length-drop (off + length src) buf,
  )

  pub get_elem?-splice :
      (off : ℕ) (src buf : List A) (i : ℕ)
      → off + length src ≤ length buf
      → get_elem? (splice off src buf) i ≡ (
          if ltb i off
          then get_elem? buf i
          else if ltb i (off + length src)
          then get_elem? src (i - off)
          else get_elem? buf i)
  unfolding splice
  get_elem?-splice off src buf i h = ground (
    arith,
    get_elem?-append (take off buf) (src ++ drop (off + length src) buf) i,
    get_elem?-append src (drop (off + length src) buf) (i - length (take off buf)),
    get_elem?-take off buf i,
    get_elem?-drop (off + length src) buf (i - length (take off buf) - length src),
    length-take off buf,
  )

  -- memcpy(buf + off, src, length src)
  abbrev pub copy_in : List A → ℕ → List A → Option (List A)
  copy_in buf off src =
      if leb (off + length src) (length buf) then some (splice off src buf) else none

  -- memcpy(out, buf + off, n)
  abbrev pub copy_out : List A → ℕ → ℕ → Option (List A)
  copy_out buf off n = if leb (off + n) (length buf) then some (take n (drop off buf)) else none
