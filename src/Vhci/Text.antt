-- ===== src/Vhci/Text.antt =====
-- The texts that `vhci_register_dev` prints and `vhci_find_device` compares: bytes, with a 0 behind
-- them in an array.
use embedded_usbip.Prelude.{
  ℕ, zero, suc, ◌+◌, ◌-◌, ◌/◌, ◌%◌, Bool, true, false, Option, none, some, List, [], ◌∷◌, ◌++◌,
  length, take, replicate, ltb, ◌==◌, if◌then◌else◌, splice, is_negative, neg_int,
}

-- Decimal digits in front of `rest`; ten are enough below 2^32.
unfoldable pub digits_before : (fuel n : ℕ) → (rest : List ℕ) → List ℕ
digits_before zero n rest = rest
digits_before (suc fuel) n rest =
    let more = digits_before fuel (n / 10) ((48 + n % 10) ∷ rest) in
    if ltb n 10 then (48 + n) ∷ rest else more

-- "%u"
unfoldable pub print_u : ℕ → List ℕ
unfolding digits_before
print_u n = digits_before 10 n []

abbrev pub padded : (width : ℕ) → List ℕ → List ℕ
padded width text = replicate (width - length text) 48 ++ text

-- "%03d" of a 32-bit pattern.
unfoldable pub print_03d : ℕ → List ℕ
unfolding print_u
print_03d n = if is_negative n then 45 ∷ padded 2 (print_u (neg_int n)) else padded 3 (print_u n)

-- "/dev/bus/usb/%03d/%03d"
abbrev pub dev_path : (busnum devnum : ℕ) → List ℕ
dev_path busnum devnum =
    (47 ∷ 100 ∷ 101 ∷ 118 ∷ 47 ∷ 98 ∷ 117 ∷ 115 ∷ 47 ∷ 117 ∷ 115 ∷ 98 ∷ 47 ∷ [])
    ++ (print_03d busnum ++ (47 ∷ print_03d devnum))

-- "%u-%u"
abbrev pub dev_busid : (busnum devnum : ℕ) → List ℕ
dev_busid busnum devnum = print_u busnum ++ (45 ∷ print_u devnum)

-- `snprintf(buf, n, ...)` of an array: the text cut to `n - 1` bytes, and a 0.
unfoldable pub snprintf : (n : ℕ) (text buf : List ℕ) → List ℕ
unfolding splice
snprintf n text buf = splice 0 (take (n - 1) text ++ (0 ∷ [])) buf

-- `strncmp(a, b, n) == 0`; `none` is a read behind the end of an array.
unfoldable pub strncmp_eq : (n : ℕ) (a b : List ℕ) → Option Bool
strncmp_eq zero a b = some true
strncmp_eq (suc n) (x ∷ a) (y ∷ b) =
    let rest = strncmp_eq n a b in
    if x == y then (if x == 0 then some true else rest) else some false
strncmp_eq (suc n) [] b = none
strncmp_eq (suc n) (x ∷ a) [] = none
