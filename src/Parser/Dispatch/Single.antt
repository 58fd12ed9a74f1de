-- ===== src/Parser/Dispatch/Single.antt =====
-- An AIS sentence of one fragment, put together from its fields.
use nmea_parser.Common.{
  ℕ, ◌<◌, ◌≡◌, refl, ◌∙◌, Bool, true, false, none, some, List, [], ◌∷◌, ◌++◌, map, ok, arith,
}
use nmea_parser.Text.{
  Text, Lacks, codes, split, parse_unsigned, digits_value, get_range, byte_len, split_at,
}
use nmea_parser.Text.Laws.{Lacks-append}
use nmea_parser.Text.Joined.{join, split-join}
use nmea_parser.Bits.Armor.{armor, groups, AllBelow64, parse_payload-armor}
use nmea_parser.Numbers.{F64}
use nmea_parser.Chrono.{Chrono}
use nmea_parser.Store.{NmeaParser}
use nmea_parser.Ais.Types.{Station}
use nmea_parser.Gnss.Libraries.{Libraries}
use nmea_parser.Parser.Frame.{before_comma, all_type_chars, checksum, show_hex}
use nmea_parser.Parser.Frame.Sealed.{Marked, frame-plain, typed}
use nmea_parser.Parser.Talker.{NavigationSystem, identify}
use nmea_parser.Parser.Vdm.{VdmFields, no_fields, read_fields, assemble}
use nmea_parser.Parser.Vdm.Halves.{vdm_type}
use nmea_parser.Parser.Dispatch.{dispatch_message, parse_sentence}
use nmea_parser.Parser.Dispatch.Sealed.{parse_sentence-sealed}
use nmea_parser.Parser.Dispatch.States.{Carries, parse_sentence-Carries}

-- The type of a sentence from a mobile station.
abbrev pub mobile_type : Bool → Text
mobile_type true = codes "!AIVDO"
mobile_type false = codes "!AIVDM"

abbrev pub single_fields : Text → List ℕ → List Text
single_fields channel values =
    codes "1" ∷ codes "1" ∷ [] ∷ channel ∷ map armor values ∷ codes "0" ∷ []

-- A message on a channel, by its six-bit values, in one sentence without a checksum.
abbrev pub single : Bool → Text → List ℕ → Text
single own channel values = join b',' (mobile_type own) (single_fields channel values)

abbrev read_single : Text → List ℕ → VdmFields
read_single channel values = record {
  fragment_count = 1;
  fragment_number = 1;
  message_id = none;
  radio_channel_code = some channel;
  payload_string = map armor values;
}

pub mobile_type-star : (own : Bool) → Lacks b'*' (mobile_type own)
mobile_type-star true = (refl, (refl, (refl, (refl, (refl, (refl, tt))))))
mobile_type-star false = (refl, (refl, (refl, (refl, (refl, (refl, tt))))))

pub mobile_type-comma : (own : Bool) → Lacks b',' (mobile_type own)
mobile_type-comma true = (refl, (refl, (refl, (refl, (refl, (refl, tt))))))
mobile_type-comma false = (refl, (refl, (refl, (refl, (refl, (refl, tt))))))

pub armor-Lacks :
    (d : ℕ) (values : List ℕ) → d < 48 → AllBelow64 values → Lacks d (map armor values)
armor-Lacks d [] h k = tt
armor-Lacks d (v ∷ values) h k = (ground arith, armor-Lacks d values h k.1)

pub mobile-Marked : (own : Bool) (rest : Text) → Marked (mobile_type own ++ rest)
mobile-Marked true rest = refl
mobile-Marked false rest = refl

pub typed-mobile :
    (own : Bool) (rest : Text)
    → typed (mobile_type own ++ (b',' ∷ rest))
      ≡ ok (mobile_type own ++ (b',' ∷ rest), mobile_type own)
unfolding before_comma all_type_chars
typed-mobile true rest = refl
typed-mobile false rest = refl

pub identify-mobile :
    (own : Bool)
    → identify (mobile_type own) ≡ ok (NavigationSystem.other, Station.mobile_station, vdm_type own)
unfolding identify get_range byte_len split_at
identify-mobile true = refl
identify-mobile false = refl

module _ (own : Bool) (channel : Text) (values : List ℕ) (below : AllBelow64 values)
    (plain : Lacks b',' channel) (starless : Lacks b'*' channel) where
  pub single-Lacks : Lacks b'*' (single own channel values)
  single-Lacks = Lacks-append b'*' (mobile_type own) _ (mobile_type-star own) (
    refl,
    (
      refl,
      (
        refl,
        (
          refl,
          (
            refl,
            (
              refl,
              Lacks-append b'*' channel _ starless (
                refl,
                Lacks-append b'*' (map armor values) _ (armor-Lacks b'*' values (omega arith) below)
                    (refl, (refl, tt)),
              ),
            ),
          ),
        ),
      ),
    ),
  )

  split-single :
      split b',' (single own channel values) ≡ mobile_type own ∷ single_fields channel values
  split-single = split-join b',' (mobile_type own) (single_fields channel values) (
    mobile_type-comma own,
    (
      (refl, tt),
      ((refl, tt), (tt, (plain, (armor-Lacks b',' values (omega arith) below, (refl, tt))))),
    ),
  )

  read-single :
      (t : Text)
      → read_fields 0 (t ∷ single_fields channel values) no_fields ≡ ok (read_single channel values)
  unfolding read_fields parse_unsigned digits_value
  read-single t = refl

  single-Carries :
      Carries (single own channel values) own Station.mobile_station (read_single channel values)
  single-Carries = (
    (single own channel values, mobile_type own),
    NavigationSystem.other,
    frame-plain (single own channel values) (mobile-Marked own _) single-Lacks ∙ typed-mobile own _,
    identify-mobile own,
    rw split-single (read-single (mobile_type own)),
  )

  assemble-single :
      {T : Type 0} (checks : Bool) (self : NmeaParser T)
      → assemble checks self (vdm_type own) (read_single channel values)
        ≡ (self, ok (some (groups values)))
  unfolding assemble
  assemble-single checks self = rw (parse_payload-armor checks values below)

  -- A message in one sentence of a mobile station, with its checksum behind it, is handled by its
  -- bits, whatever stands in front of its mark and behind the checksum (`$` and `!` may not stand in
  -- front, `*` not behind).
  pub parse_sentence-single :
      {F S T Z : Type 0} (f64 : F64 F) (chrono : Chrono T) (libs : Libraries S Z) (checks : Bool)
      (self : NmeaParser T) (pre tail : Text)
      → Lacks b'$' pre
      → Lacks b'!' pre
      → Lacks b'*' tail
      → let s = single own channel values in
        parse_sentence f64 chrono libs checks self
          (pre ++ (s ++ (b'*' ∷ (show_hex (checksum s) ++ tail))))
        ≡ dispatch_message f64 chrono checks self (groups values) Station.mobile_station own
  parse_sentence-single f64 chrono libs checks self pre tail no_dollar no_bang no_star =
      let s = single own channel values in
      parse_sentence-sealed f64 chrono libs checks self pre s tail no_dollar no_bang
        (mobile-Marked own _) no_star single-Lacks
      ∙ rw (
        parse_sentence-Carries f64 chrono libs checks self s own Station.mobile_station
            (read_single channel values) single-Carries,
        assemble-single checks self,
      )
