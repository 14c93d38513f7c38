-- ===== src/Conv/Tests.antt =====
-- Runs of the byte order conversions, and the theorems at concrete inputs.
use embedded_usbip.Prelude.{splice, ℕ, ◌≡◌, refl, some, List, [], ◌∷◌}
use embedded_usbip.Conv.{i_bswap32, i_swapcpy16}

abbrev zeros : List ℕ
zeros = 0 ∷ 0 ∷ 0 ∷ 0 ∷ 0 ∷ 0 ∷ 0 ∷ 0 ∷ []

swap_of_devid : i_bswap32 65538 ≡ some 33554688
unfolding i_bswap32
swap_of_devid = refl

copied_as_it_is : i_swapcpy16 zeros 258 ≡ some (2 ∷ 1 ∷ 0 ∷ 0 ∷ 0 ∷ 0 ∷ 0 ∷ 0 ∷ [])
unfolding i_swapcpy16 splice
copied_as_it_is = refl
