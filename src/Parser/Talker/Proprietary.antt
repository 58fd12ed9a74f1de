-- ===== src/Parser/Talker/Proprietary.antt =====
-- Sentence types of proprietary talkers, which start with `$P`.
use nmea_parser.Common.{ℕ, ◌<◌, ◌≡◌, some, [], ◌∷◌, lt→ltb, ok, arith}
use nmea_parser.Text.{byte_len, split_at, get_range}
use nmea_parser.Ais.Types.{Station}
use nmea_parser.Parser.Talker.{NavigationSystem, navigation_system, identify}

-- A proprietary sentence type of six ASCII characters loses its `P` and the character behind it.
pub identify-proprietary :
    (a b c d : ℕ)
    → a < 128
    → b < 128
    → c < 128
    → d < 128
    → identify (b'$' ∷ b'P' ∷ a ∷ b ∷ c ∷ d ∷ [])
      ≡ ok (NavigationSystem.proprietary, Station.other, b'$' ∷ b ∷ c ∷ d ∷ [])
unfolding identify navigation_system byte_len get_range split_at
identify-proprietary a b c d ha hb hc hd =
    let skip : get_range (b'$' ∷ b'P' ∷ a ∷ b ∷ c ∷ d ∷ []) 3 6 ≡ some (b ∷ c ∷ d ∷ []) =
      ground arith in
    rw (lt→ltb a 128 ha, lt→ltb b 128 hb, lt→ltb c 128 hc, lt→ltb d 128 hd, skip)
