-- ===== src/Bits/Packing.antt =====
-- The six-bit values of a payload, from the bits of a message.
use nmea_parser.Common.{ℕ, zero, suc, ◌+◌, ◌*◌, ◌<◌, ◌≡◌, refl, Bool, List, [], ◌∷◌, length, arith}
use nmea_parser.Bits.{Bits, bit}
use nmea_parser.Bits.Pick.{to_bits}
use nmea_parser.Bits.Armor.{groups, AllBelow64}

abbrev six : Bool → Bool → Bool → Bool → Bool → Bool → ℕ
six a b c d e f = bit a * 32 + bit b * 16 + bit c * 8 + bit d * 4 + bit e * 2 + bit f

-- The six-bit values; bits behind the last six are dropped.
abbrev pub pack : Bits → List ℕ
pack (a ∷ b ∷ c ∷ d ∷ e ∷ f ∷ bs) = six a b c d e f ∷ pack bs
pack _ = []

six-lt : (a b c d e f : Bool) → six a b c d e f < 64
six-lt a b c d e f = ground arith

to_bits-six : (a b c d e f : Bool) → to_bits 6 (six a b c d e f) ≡ a ∷ b ∷ c ∷ d ∷ e ∷ f ∷ []
unfolding to_bits
to_bits-six a b c d e f = ground arith

pub pack-AllBelow64 : (n : ℕ) (bs : Bits) → length bs ≡ 6 * n → AllBelow64 (pack bs)
pack-AllBelow64 zero [] h = tt
pack-AllBelow64 zero (a ∷ bs) h = absurd (omega (arith, h))
pack-AllBelow64 (suc n) (a ∷ b ∷ c ∷ d ∷ e ∷ f ∷ bs) h =
    (six-lt a b c d e f, pack-AllBelow64 n bs (omega (arith, h)))
pack-AllBelow64 (suc n) _ h = absurd (omega (arith, h))

-- The bits of the values are the bits of the message, where it is of whole values.
pub groups-pack : (n : ℕ) (bs : Bits) → length bs ≡ 6 * n → groups (pack bs) ≡ bs
groups-pack zero [] h = refl
groups-pack zero (a ∷ bs) h = absurd (omega (arith, h))
groups-pack (suc n) (a ∷ b ∷ c ∷ d ∷ e ∷ f ∷ bs) h =
    rw (to_bits-six a b c d e f, groups-pack n bs (omega (arith, h)))
groups-pack (suc n) _ h = absurd (omega (arith, h))
