-- ===== src/Gnss/Gsv.antt =====
-- gnss/gsv.rs: satellites in view, a message of several sentences that are kept in the store.
pub mod Reassembly
pub mod Order
pub mod Apart
pub mod Exclusive
pub mod Untouched
pub mod Total
use nmea_parser.Common.{
  ℕ, zero, suc, ◌+◌, ◌*◌, ◌^◌, Bool, Option, none, some, List, [], ◌∷◌, ◌++◌, ltb, ◌==◌,
  if◌then◌else◌, Outcome, ok, err, panic, ◌>>=◌,
}
use nmea_parser.Text.{Text, split, parse_unsigned, show_u64}
use nmea_parser.Store.{NmeaParser, push_string, pull_string, contains_key}
use nmea_parser.Message.{ParsedMessage}
use nmea_parser.Parser.Talker.{NavigationSystem}
use nmea_parser.Gnss.Data.{GsvData, GnssMessage}
use nmea_parser.Gnss.Fields.{pick_number_field, or_none}

unfoldable pub make_gsv_key : Text → ℕ → ℕ → Text
make_gsv_key sentence_type msg_count msg_num =
    sentence_type ++ (b',' ∷ (show_u64 msg_count ++ (b',' ∷ show_u64 msg_num)))

abbrev or_zero : Option ℕ → ℕ
or_zero none = 0
or_zero (some n) = n

abbrev pub first_field : List Text → Text
first_field [] = []
first_field (s ∷ rest) = s

-- The rounds of `1..(msg_count + 1)`; the addition of u32 panics, or wraps to an empty range.
unfoldable pub rounds : Bool → ℕ → Outcome ℕ
rounds overflow_checks msg_count =
    if ltb (msg_count + 1) (2 ^ 32) then ok msg_count else if overflow_checks then panic else ok 0

-- `msg_count` and `msg_num`.
unfoldable pub numbers : List Text → Outcome (ℕ × ℕ)
unfolding pick_number_field
numbers fields = do
  msg_count ← pick_number_field (parse_unsigned (2 ^ 32)) fields 1
  msg_num ← pick_number_field (parse_unsigned (2 ^ 32)) fields 2
  ok (or_zero msg_count, or_zero msg_num)

-- The keys from `i` on that the store holds, of `n`.
unfoldable pub count_found : {T : Type 0} → NmeaParser T → (ℕ → Text) → ℕ → ℕ → ℕ
count_found store key i zero = 0
count_found store key i (suc n) =
    let rest = count_found store key (suc i) n in
    if contains_key store (key i) then suc rest else rest

module _ {S : Type 0} (parse_f32 : Text → Option S) where
  -- The satellite in the fields from `4 + 4 * j` on.
  unfoldable pub satellite : NavigationSystem → List Text → ℕ → List (GsvData S)
  unfolding pick_number_field
  satellite nav_system split j =
      let field = 4 + 4 * j in
      elim (or_none (pick_number_field (parse_unsigned (2 ^ 8)) split field)) [
        | none ↦ []
        | some prn ↦
            record {
              source = nav_system;
              prn_number = prn;
              elevation = or_none (pick_number_field parse_f32 split (field + 1));
              azimuth = or_none (pick_number_field parse_f32 split (field + 2));
              snr = or_none (pick_number_field parse_f32 split (field + 3));
            }
            ∷ []
      ]

  unfoldable pub satellites : NavigationSystem → Text → List (GsvData S)
  unfolding satellite
  satellites nav_system sentence =
      let fields = split b',' sentence in
      satellite nav_system fields 0
      ++ (satellite nav_system fields 1
          ++ (satellite nav_system fields 2 ++ satellite nav_system fields 3))

  abbrev pub satellites_or_none : NavigationSystem → Option Text → List (GsvData S)
  satellites_or_none nav_system none = []
  satellites_or_none nav_system (some sentence) = satellites nav_system sentence

  module _ {T : Type 0} where
    -- The satellites of the sentences under the keys from `i` on, which are taken out.
    unfoldable pub collect :
        NavigationSystem → NmeaParser T → (ℕ → Text) → ℕ → ℕ → NmeaParser T × List (GsvData S)
    collect nav_system store key i zero = (store, [])
    collect nav_system store key i (suc n) =
        let (store', found) = pull_string store (key i) in
        let (store'', rest) = collect nav_system store' key (suc i) n in
        (store'', satellites_or_none nav_system found ++ rest)

    module _ {F Z : Type 0} where
      -- The answer to a sentence that is in the store.
      unfoldable pub answer :
          NavigationSystem
          → NmeaParser T
          → (ℕ → Text)
          → ℕ
          → Outcome ℕ
          → NmeaParser T × Outcome (ParsedMessage F T (GnssMessage F S T Z))
      unfolding count_found collect
      answer nav_system store key msg_count (ok n) =
          if count_found store key 1 n == msg_count
          then (let (store', v) = collect nav_system store key 1 n in
              (store', ok (ParsedMessage.gnss (GnssMessage.gsv v))))
          else (store, ok ParsedMessage.incomplete)
      answer nav_system store key msg_count (err e) = (store, err e)
      answer nav_system store key msg_count panic = (store, panic)

      unfoldable pub receive :
          Bool
          → NavigationSystem
          → NmeaParser T
          → Text
          → Text
          → ℕ
          → ℕ
          → NmeaParser T × Outcome (ParsedMessage F T (GnssMessage F S T Z))
      unfolding answer rounds
      receive overflow_checks nav_system store sentence msg_type msg_count msg_num =
          answer nav_system (push_string store (make_gsv_key msg_type msg_count msg_num) sentence)
            (make_gsv_key msg_type msg_count) msg_count (rounds overflow_checks msg_count)

      unfoldable pub handle :
          Bool
          → Text
          → NavigationSystem
          → NmeaParser T
          → NmeaParser T × Outcome (ParsedMessage F T (GnssMessage F S T Z))
      unfolding receive numbers
      handle overflow_checks sentence nav_system store =
          let fields = split b',' sentence in
          elim (numbers fields) [
            | ok (msg_count, msg_num) ↦
                receive overflow_checks nav_system store sentence (first_field fields) msg_count
                  msg_num
            | err e ↦ (store, err e)
            | panic ↦ (store, panic)
          ]
