-- ===== src/Parser/Dispatch/Sealed.antt =====
-- `parse_sentence` and the checksum.
use nmea_parser.Common.{ℕ, ◌%◌, ◌≡◌, ◌≢◌, Bool, [], ◌∷◌, ◌++◌, err, corrupted_sentence}
use nmea_parser.Text.{Text, Lacks}
use nmea_parser.Numbers.{F64}
use nmea_parser.Chrono.{Chrono}
use nmea_parser.Store.{NmeaParser}
use nmea_parser.Parser.Frame.{checksum, show_hex}
use nmea_parser.Parser.Frame.Sealed.{Marked, frame-sealed, frame-changed}
use nmea_parser.Gnss.Libraries.{Libraries}
use nmea_parser.Parser.Dispatch.{parse_sentence}

module _ {F S T Z : Type 0} (f64 : F64 F) (chrono : Chrono T) (libs : Libraries S Z)
    (overflow_checks : Bool) (self : NmeaParser T) where
  -- A sentence with its own checksum behind it has the result and the effect of the sentence alone,
  -- whatever stands in front of its mark and behind the checksum (`$` and `!` may not stand in
  -- front, `*` not behind, and the sentence holds no `*`).
  pub parse_sentence-sealed :
      (pre s tail : Text)
      → Lacks b'$' pre
      → Lacks b'!' pre
      → Marked s
      → Lacks b'*' tail
      → Lacks b'*' s
      → parse_sentence f64 chrono libs overflow_checks self
          (pre ++ (s ++ (b'*' ∷ (show_hex (checksum s) ++ tail))))
        ≡ parse_sentence f64 chrono libs overflow_checks self s
  unfolding parse_sentence
  parse_sentence-sealed pre s tail d b m t p = rw (frame-sealed pre s tail d b m t p)

  -- A sentence in which one character behind the mark was changed, in its low byte, is rejected as
  -- corrupted by the checksum of the original, and leaves the state as it was.
  pub parse_sentence-changed :
      (m : ℕ) (a b tail : Text) (c c' : ℕ)
      → Marked (m ∷ [])
      → Lacks b'*' tail
      → c % 256 ≢ c' % 256
      → parse_sentence f64 chrono libs overflow_checks self
          ((m ∷ (a ++ (c' ∷ b))) ++ (b'*' ∷ (show_hex (checksum (m ∷ (a ++ (c ∷ b)))) ++ tail)))
        ≡ (self, err corrupted_sentence)
  unfolding parse_sentence
  parse_sentence-changed m a b tail c c' k t ne = rw (frame-changed m a b tail c c' k t ne)
