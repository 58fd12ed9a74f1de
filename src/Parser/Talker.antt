-- ===== src/Parser/Talker.antt =====
-- gnss/mod.rs and ais/mod.rs: `from_str` of a talker; lib.rs: the station, the navigation system and
-- the sentence type without its talker.
pub mod Proprietary
pub mod Total
use nmea_parser.Common.{
  ℕ, Bool, false, ◌&&◌, not, Option, none, some, [], ◌∷◌, ltb, ◌==◌, if◌then◌else◌, Outcome, ok,
  err, ◌>>=◌, ok_or, or_panic, invalid_sentence, corrupted_sentence,
}
use nmea_parser.Text.{Text, codes, eq_text, is_empty, byte_len, split_at, get_range}
use nmea_parser.Ais.Types.{Station}

pub data NavigationSystem : Type 0 where
  combination gps glonass galileo beidou navic qzss proprietary other : NavigationSystem

abbrev navigation_code : Text → NavigationSystem
navigation_code id =
    if eq_text id (codes "GN")
    then NavigationSystem.combination
    else if eq_text id (codes "GP")
    then NavigationSystem.gps
    else if eq_text id (codes "GL")
    then NavigationSystem.glonass
    else if eq_text id (codes "GA")
    then NavigationSystem.galileo
    else if eq_text id (codes "BD")
    then NavigationSystem.beidou
    else if eq_text id (codes "GI")
    then NavigationSystem.navic
    else if eq_text id (codes "QZ")
    then NavigationSystem.qzss
    else NavigationSystem.other

unfoldable pub navigation_system : Text → Outcome NavigationSystem
navigation_system talker_id =
    if is_empty talker_id
    then err invalid_sentence
    else (or_panic (get_range talker_id 0 1) >>= λ first.
        if eq_text first (codes "P")
        then ok NavigationSystem.proprietary
        else if ltb (byte_len talker_id) 2
        then err invalid_sentence
        else (or_panic (get_range talker_id 0 2) >>= λ id. ok (navigation_code id)))

abbrev station_code : Text → Station
station_code id =
    if eq_text id (codes "AB")
    then Station.base_station
    else if eq_text id (codes "AD")
    then Station.dependent_ais_base_station
    else if eq_text id (codes "AI")
    then Station.mobile_station
    else if eq_text id (codes "AN")
    then Station.aid_to_navigation_station
    else if eq_text id (codes "AR")
    then Station.ais_receiving_station
    else if eq_text id (codes "AS")
    then Station.limited_base_station
    else if eq_text id (codes "AT")
    then Station.ais_transmitting_station
    else if eq_text id (codes "AX")
    then Station.repeater_station
    else Station.other

unfoldable pub station : Text → Outcome Station
station talker_id =
    if ltb (byte_len talker_id) 2
    then err invalid_sentence
    else (or_panic (get_range talker_id 0 2) >>= λ id. ok (station_code id))

-- `s.get(1..)`.
abbrev get_from_one : Text → Option Text
get_from_one t = elim (split_at t 1) [ none ↦ none | some (_, b) ↦ some b ]

abbrev pub starts_with : ℕ → Text → Bool
starts_with d [] = false
starts_with d (c ∷ t) = c == d

-- `format!("$..", ..)` of the last three of six bytes.
abbrev short_type : ℕ → Text → Outcome Text
short_type mark t = ok_or (get_range t 3 6) invalid_sentence >>= λ s. ok (mark ∷ s)

abbrev identify_gnss : Text → Outcome (NavigationSystem × Station × Text)
identify_gnss sentence_type = do
  talker ← ok_or (get_from_one sentence_type) corrupted_sentence
  nav_system ← navigation_system talker
  short ←
      (if not (starts_with b'P' sentence_type) && byte_len sentence_type == 6
        then short_type b'$' sentence_type
        else ok sentence_type)
  ok (nav_system, Station.other, short)

abbrev identify_ais : Text → Outcome (NavigationSystem × Station × Text)
identify_ais sentence_type = do
  talker ← ok_or (get_from_one sentence_type) corrupted_sentence
  s ← station talker
  short ← (if byte_len sentence_type == 6 then short_type b'!' sentence_type else ok sentence_type)
  ok (NavigationSystem.other, s, short)

unfoldable pub identify : Text → Outcome (NavigationSystem × Station × Text)
unfolding navigation_system station
identify sentence_type =
    if starts_with b'$' sentence_type
    then identify_gnss sentence_type
    else if starts_with b'!' sentence_type
    then identify_ais sentence_type
    else ok (NavigationSystem.other, Station.other, sentence_type)
