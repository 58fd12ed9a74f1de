-- ===== src/Parser/Dispatch/Voyages.antt =====
-- A voyage report from its raw fields, through the texts of its two sentences, to its message.
use nmea_parser.Common.{
  ℕ, zero, suc, ◌*◌, ◌^◌, ◌<◌, ◌≡◌, refl, ap, Bool, true, false, not, none, some, List, [], ◌∷◌,
  ◌++◌, map, take, drop, pos, ok, ◌>>=◌, length, arith,
}
use nmea_parser.Text.{Text, Lacks}
use nmea_parser.Bits.Armor.{armor, AllBelow64, parse_payload-armor}
use nmea_parser.Bits.Packing.{pack, groups-pack, pack-AllBelow64}
use nmea_parser.Bits.Layout.{encode, length-encode, pick_nth}
use nmea_parser.Numbers.{F64}
use nmea_parser.Chrono.{Chrono}
use nmea_parser.Store.{NmeaParser}
use nmea_parser.Message.{ParsedMessage}
use nmea_parser.Ais.Types.{Station}
use nmea_parser.Ais.Vdm.T5.Layout.{VoyageReport, InRange, layout, arrival, reported, handle-encode}
use nmea_parser.Gnss.Libraries.{Libraries}
use nmea_parser.Parser.Vdm.Fragments.{fragment}
use nmea_parser.Parser.Vdm.Halves.{half_key}
use nmea_parser.Parser.Vdm.Interleaved.{in_order}
use nmea_parser.Parser.Dispatch.{ais_message, dispatch_message, parse_sentence}
use nmea_parser.Parser.Dispatch.States.{run}
use nmea_parser.Parser.Dispatch.Interleaved.{AllHoldNoHalf, parse_sentence-interleaved}
use nmea_parser.Parser.Dispatch.Halved.{half_sentence, half_sentence-HoldsHalf}

-- The values in the half `b` of a message whose first half has `k` of them.
abbrev pub part : Bool → ℕ → List ℕ → List ℕ
part false k values = take k values
part true k values = drop k values

part-AllBelow64 :
    (b : Bool) (k : ℕ) (values : List ℕ) → AllBelow64 values → AllBelow64 (part b k values)
part-AllBelow64 false zero values h = tt
part-AllBelow64 false (suc k) [] h = tt
part-AllBelow64 false (suc k) (v ∷ values) h = (h.0, part-AllBelow64 false k values h.1)
part-AllBelow64 true zero values h = h
part-AllBelow64 true (suc k) [] h = tt
part-AllBelow64 true (suc k) (v ∷ values) h = part-AllBelow64 true k values h.1

joined :
    (k : ℕ) (values : List ℕ)
    → map armor (take k values) ++ map armor (drop k values) ≡ map armor values
joined zero values = refl
joined (suc k) [] = refl
joined (suc k) (v ∷ values) = ap (λ (t : Text). armor v ∷ t) (joined k values)

in_order-part :
    (b : Bool) (k : ℕ) (values : List ℕ)
    → in_order b (map armor (part b k values)) (map armor (part (not b) k values))
      ≡ map armor values
in_order-part true k values = joined k values
in_order-part false k values = joined k values

-- The half `b` of the report `r` on a channel as message `i`, the first half with `k` six-bit values.
abbrev pub voyage_half : Text → Text → Bool → ℕ → Text → ℕ → VoyageReport → Bool → Text
voyage_half pre tail own i channel k r b =
    half_sentence pre tail own i channel b (part b k (pack (encode (layout r))))

module _ {F S T Z : Type 0} (f64 : F64 F) (chrono : Chrono T) (libs : Libraries S Z) (checks : Bool)
    (self : NmeaParser T) (r : VoyageReport) (v : InRange r) where
  dispatch_message-voyage :
      (G : Type 0) (self' : NmeaParser T) (s : Station) (own : Bool) (now : T)
      → chrono.with_ymd_and_hms (pos 2000) 1 1 0 0 0 ≡ some now
      → (dispatch_message {G = G} f64 chrono checks self' (encode (layout r)) s own).1 ≡ (
          arrival chrono now r >>= λ eta.
          ok (ParsedMessage.vessel_static_data (reported r own eta)))
  unfolding dispatch_message ais_message
  dispatch_message-voyage G self' s own now clock =
      rw (pick_nth (layout r) 0 6 5 refl (omega arith) (omega arith))
        (handle-encode r v chrono now s own clock)

  -- A voyage report comes in two sentences of its armored bits, cut anywhere, in either order, and any
  -- other sentences between them, of which none holds a half of that message. Where its raw fields fit
  -- their widths, the store does not hold the half that comes last, and chrono gives the first second
  -- of 2000, the first sentence is answered by no message, and the last by the report's fields, as of
  -- class B, with its time of arrival, or by the error of that time. The channel has no comma and no star, the number of
  -- the message is below 2 ^ 64, and each sentence may have any text in front (no mark) and behind its
  -- checksum (no star).
  pub parse_sentence-voyage :
      (own : Bool) (i : ℕ) (channel : Text) (k : ℕ) (b : Bool) (pre tail pre' tail' : Text)
      (texts : List Text) (now : T)
      → chrono.with_ymd_and_hms (pos 2000) 1 1 0 0 0 ≡ some now
      → i < 2 ^ 64
      → Lacks b',' channel × Lacks b'*' channel
      → Lacks b'$' pre × Lacks b'!' pre × Lacks b'*' tail
      → Lacks b'$' pre' × Lacks b'!' pre' × Lacks b'*' tail'
      → fragment self (half_key own i channel (not b)) ≡ none
      → AllHoldNoHalf own i channel texts
      → let once =
          parse_sentence f64 chrono libs checks self (voyage_half pre tail own i channel k r b) in
        let between = run f64 chrono libs checks once.0 texts in
        (once.1 ≡ ok ParsedMessage.incomplete)
        × ((parse_sentence f64 chrono libs checks between
              (voyage_half pre' tail' own i channel k r (not b))).1
            ≡ (arrival chrono now r >>= λ eta.
                ok (ParsedMessage.vessel_static_data (reported r own eta))))
  parse_sentence-voyage own i channel k b pre tail pre' tail' texts now clock small plain clear
        clear' fresh others =
      let bits = encode (layout r) in
      let values = pack bits in
      let long : length bits ≡ 6 * 71 = length-encode (layout r) in
      let below = pack-AllBelow64 71 bits long in
      let (waits, answer) =
        parse_sentence-interleaved f64 chrono libs checks own i channel self b
          Station.mobile_station Station.mobile_station (voyage_half pre tail own i channel k r b)
          (voyage_half pre' tail' own i channel k r (not b)) (map armor (part b k values))
          (map armor (part (not b) k values)) texts
          (half_sentence-HoldsHalf own i channel b (part b k values) small
            (part-AllBelow64 b k values below) plain.0 plain.1 pre tail (clear.0, clear.1) clear.2)
          (half_sentence-HoldsHalf own i channel (not b) (part (not b) k values) small
            (part-AllBelow64 (not b) k values below) plain.0 plain.1 pre' tail' (clear'.0, clear'.1)
            clear'.2)
          fresh others in
      (
        waits,
        rw
            (
              answer,
              in_order-part b k values,
              parse_payload-armor checks values below,
              groups-pack 71 bits long,
            )
            (dispatch_message-voyage _ _ Station.mobile_station own now clock),
      )
