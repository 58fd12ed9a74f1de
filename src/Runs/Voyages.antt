-- ===== src/Runs/Voyages.antt =====
-- The two sentences of a voyage report, at a concrete one.
use nmea_parser.Common.{◌>>=◌, ◌≡◌, refl, Bool, true, false, [], ◌∷◌, ok, arith}
use nmea_parser.Text.{Text, codes}
use nmea_parser.Bits.{trim_end}
use nmea_parser.Message.{ParsedMessage}
use nmea_parser.Parser.Dispatch.{parse_sentence}
use nmea_parser.Parser.Dispatch.States.{run}
use nmea_parser.Ais.Vdm.T5.Layout.{VoyageReport, InRange, arrival, reported}
use nmea_parser.Parser.Dispatch.Voyages.{voyage_half, parse_sentence-voyage}
use nmea_parser.Runs.Bytes.{by_test, empty_store}
use nmea_parser.Runs.Toys.{floats, calendar, libraries}
use nmea_parser.Runs.Streams.{fix, absent, fix_apart}

abbrev voyage : VoyageReport
voyage = record {
  repeat = 0;
  user = 351759000;
  version = 0;
  imo = 9134270;
  call = codes "3FOF8";
  ship = codes "EVER DIADEM";
  kind = 70;
  bow = 225;
  stern = 70;
  port = 1;
  starboard = 31;
  fix = 1;
  month = 5;
  day = 15;
  hour = 14;
  minute = 0;
  draught = 122;
  target = codes "NEW YORK";
  terminal = 0;
  spare = 0;
  fill = 0;
}

voyage-InRange : InRange voyage
unfolding trim_end
voyage-InRange = record {
  user_fits = omega arith;
  version_fits = omega arith;
  imo_fits = omega arith;
  call_fits = (omega arith, omega arith, refl);
  ship_fits = (omega arith, omega arith, refl);
  kind_fits = omega arith;
  bow_fits = omega arith;
  stern_fits = omega arith;
  port_fits = omega arith;
  starboard_fits = omega arith;
  fix_fits = omega arith;
  month_fits = omega arith;
  day_fits = omega arith;
  hour_fits = omega arith;
  minute_fits = omega arith;
  draught_fits = omega arith;
  target_fits = (omega arith, omega arith, refl);
}

abbrev voyage_sentence : Bool → Text
voyage_sentence b = voyage_half [] (13 ∷ 10 ∷ []) false 1 (codes "A") 60 voyage b

-- The second half comes first, and a fix between the two.
parse_sentence-voyage_example :
    let once = parse_sentence floats calendar libraries true empty_store (voyage_sentence true) in
    let between = run floats calendar libraries true once.0 (fix ∷ []) in
    (once.1 ≡ ok ParsedMessage.incomplete)
    × ((parse_sentence floats calendar libraries true between (voyage_sentence false)).1 ≡ (
        arrival calendar (744000, 0) voyage >>= λ eta.
        ok (ParsedMessage.vessel_static_data (reported voyage false eta))))
parse_sentence-voyage_example =
    parse_sentence-voyage floats calendar libraries true empty_store voyage voyage-InRange false 1
      (codes "A") 60 true [] (13 ∷ 10 ∷ []) [] (13 ∷ 10 ∷ []) (fix ∷ []) (744000, 0) refl
      (omega arith) (by_test b',' (codes "A") refl, by_test b'*' (codes "A") refl)
      (tt, tt, by_test b'*' (13 ∷ 10 ∷ []) refl) (tt, tt, by_test b'*' (13 ∷ 10 ∷ []) refl)
      (absent false) fix_apart
