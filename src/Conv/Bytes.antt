-- ===== src/Conv/Bytes.antt =====
-- The bytes of a number, as src/conv.c reads them through `uint8_t*`.
use embedded_usbip.Prelude.{
  ℕ, zero, suc, ◌+◌, ◌*◌, ◌/◌, ◌^◌, ◌<◌, ◌≡◌, refl, ap, ap₂, ◌∙◌, List, [], ◌∷◌, length, arith,
}
use embedded_usbip.Conv.{to_bytes, of_bytes}

-- Each element is a byte.
pub data AllBytes : List ℕ → Type 0 where
  none_left : AllBytes []
  byte : {b : ℕ} {bs : List ℕ} → b < 256 → AllBytes bs → AllBytes (b ∷ bs)

pub to_bytes-of_bytes : (bs : List ℕ) → AllBytes bs → to_bytes (length bs) (of_bytes bs) ≡ bs
to_bytes-of_bytes [] none_left = refl
to_bytes-of_bytes (b ∷ bs) (byte h all) =
    ap₂ (λ x xs. x ∷ xs) (omega arith)
      (ap (to_bytes (length bs)) (omega arith) ∙ to_bytes-of_bytes bs all)

pub of_bytes-to_bytes : (size val : ℕ) → val < 256 ^ size → of_bytes (to_bytes size val) ≡ val
of_bytes-to_bytes zero val h = omega arith
of_bytes-to_bytes (suc size) val h = omega (arith, of_bytes-to_bytes size (val / 256) (omega arith))

-- The value of bytes in network order, the high byte first.
abbrev pub of_network_from : (high : ℕ) → List ℕ → ℕ
of_network_from high [] = high
of_network_from high (b ∷ bs) = of_network_from (high * 256 + b) bs

-- The bytes the other way round, in front of others.
abbrev pub reverse_onto : List ℕ → List ℕ → List ℕ
reverse_onto [] ys = ys
reverse_onto (x ∷ xs) ys = reverse_onto xs (x ∷ ys)

pub reverse_onto-AllBytes :
    (xs ys : List ℕ) → AllBytes xs → AllBytes ys → AllBytes (reverse_onto xs ys)
reverse_onto-AllBytes [] ys none_left all = all
reverse_onto-AllBytes (x ∷ xs) ys (byte h more) all =
    reverse_onto-AllBytes xs (x ∷ ys) more (byte h all)

pub to_bytes-AllBytes : (size val : ℕ) → AllBytes (to_bytes size val)
to_bytes-AllBytes zero val = none_left
to_bytes-AllBytes (suc size) val = byte (omega arith) (to_bytes-AllBytes size (val / 256))

abbrev pub swapped : (size val : ℕ) → ℕ
swapped size val = of_bytes (reverse_onto (to_bytes size val) [])

pub swapped-AllBytes : (size val : ℕ) → AllBytes (reverse_onto (to_bytes size val) [])
swapped-AllBytes size val =
    reverse_onto-AllBytes (to_bytes size val) [] (to_bytes-AllBytes size val) none_left
