-- ===== src/Ais/Vdm/T24.antt =====
-- ais/vdm_t24.rs: type 24, static data report. Its parts A and B are merged through the store.
pub mod Merge
pub mod Untouched
pub mod Pairs
pub mod Stored
pub mod Apart
use nmea_parser.Common.{
  ℕ, ◌%◌, ◌^◌, Bool, true, false, ◌&&◌, not, ◌==◌, if◌then◌else◌, Option, none, some, [], ◌∷◌,
  Outcome, ok, err, panic, ◌>>=◌, invalid_sentence,
}
use nmea_parser.Text.{Text}
use nmea_parser.Bits.{Bits, pick_u64, pick_string}
use nmea_parser.Message.{ParsedMessage}
use nmea_parser.Store.{NmeaParser, push_vsd, pull_vsd}
use nmea_parser.Ais.Types.{Station, AisClass, ShipType, CargoType}
use nmea_parser.Ais.Codes.{ship_type, cargo_type}
use nmea_parser.Ais.Data.{VesselStaticData}
use nmea_parser.Ais.Fields.{pick_u8, pick_u16, pick_u32, non_empty}

unfoldable pub choose_some : {A : Type 0} → Option A → Option A → Option A
choose_some (some a) b = some a
choose_some none b = b

abbrev pub same_class : AisClass → AisClass → Bool
same_class AisClass.unknown AisClass.unknown = true
same_class AisClass.class_a AisClass.class_a = true
same_class AisClass.class_b AisClass.class_b = true
same_class _ _ = false

abbrev pub same_number : Option ℕ → Option ℕ → Bool
same_number none none = true
same_number (some a) (some b) = a == b
same_number _ _ = false

unfoldable pub choose_ship_type : ShipType → ShipType → ShipType
choose_ship_type ShipType.not_available second = second
choose_ship_type self _ = self

unfoldable pub choose_cargo_type : CargoType → CargoType → CargoType
choose_cargo_type CargoType.undefined other = other
choose_cargo_type self _ = self

-- `match pick_u64(bv, 38, 2)`: part A, part B, or an error.
abbrev pub part_number : ℕ → Outcome Bool
part_number n = if n == 0 then ok false else if n == 1 then ok true else err invalid_sentence

-- A string that is picked only if the message is of its part.
abbrev pub text_if : Bool → Outcome Text → (Text → Option Text) → Outcome (Option Text)
text_if true text f = text >>= λ t. ok (f t)
text_if false text f = ok none

module _ {T : Type 0} where
  -- The structure that `merge` builds once its checks have passed.
  unfoldable pub merged : VesselStaticData T → VesselStaticData T → VesselStaticData T
  unfolding choose_some choose_ship_type choose_cargo_type
  merged self other = record {
    own_vessel = self.own_vessel;
    ais_type = self.ais_type;
    mmsi = self.mmsi;
    ais_version_indicator = self.ais_version_indicator;
    imo_number = choose_some self.imo_number other.imo_number;
    call_sign = choose_some self.call_sign other.call_sign;
    name = choose_some self.name other.name;
    ship_type = choose_ship_type self.ship_type other.ship_type;
    cargo_type = choose_cargo_type self.cargo_type other.cargo_type;
    equipment_vendor_id = choose_some self.equipment_vendor_id other.equipment_vendor_id;
    equipment_model = choose_some self.equipment_model other.equipment_model;
    equipment_serial_number =
        choose_some self.equipment_serial_number other.equipment_serial_number;
    dimension_to_bow = choose_some self.dimension_to_bow other.dimension_to_bow;
    dimension_to_stern = choose_some self.dimension_to_stern other.dimension_to_stern;
    dimension_to_port = choose_some self.dimension_to_port other.dimension_to_port;
    dimension_to_starboard = choose_some self.dimension_to_starboard other.dimension_to_starboard;
    position_fix_type = choose_some self.position_fix_type other.position_fix_type;
    eta = choose_some self.eta other.eta;
    draught10 = choose_some self.draught10 other.draught10;
    destination = choose_some self.destination other.destination;
    mothership_mmsi = choose_some self.mothership_mmsi other.mothership_mmsi;
  }

  unfoldable pub merge : VesselStaticData T → VesselStaticData T → Outcome (VesselStaticData T)
  unfolding merged
  merge self other =
      if not (same_class self.ais_type other.ais_type)
      then err invalid_sentence
      else if not (self.mmsi == other.mmsi)
      then err invalid_sentence
      else if not (same_number self.imo_number other.imo_number)
      then err invalid_sentence
      else if not (self.ais_version_indicator == other.ais_version_indicator)
      then err invalid_sentence
      else ok (merged self other)

  -- The fields of part A (`false`) or part B (`true`).
  unfoldable pub static_part : Bits → Bool → Bool → Outcome (VesselStaticData T)
  static_part bv own_vessel part_b = do
    call_sign ← text_if part_b (pick_string bv 90 7) non_empty
    name ← text_if (not part_b) (pick_string bv 40 120) non_empty
    equipment_vendor_id ← text_if part_b (pick_string bv 48 3) some
    ok (record {
      own_vessel = own_vessel;
      ais_type = AisClass.class_b;
      mmsi = pick_u32 bv 8 30;
      ais_version_indicator = 0;
      imo_number = none;
      call_sign = call_sign;
      name = name;
      ship_type = if part_b then ship_type (pick_u8 bv 40 8) else ShipType.not_available;
      cargo_type = if part_b then cargo_type (pick_u8 bv 40 8) else CargoType.undefined;
      equipment_vendor_id = equipment_vendor_id;
      equipment_model = if part_b then some (pick_u8 bv 66 4) else none;
      equipment_serial_number = if part_b then some (pick_u32 bv 70 20) else none;
      dimension_to_bow = if part_b then some (pick_u16 bv 132 9) else none;
      dimension_to_stern = if part_b then some (pick_u16 bv 141 9) else none;
      dimension_to_port = if part_b then some (pick_u16 bv 150 6) else none;
      dimension_to_starboard = if part_b then some (pick_u16 bv 156 6) else none;
      position_fix_type = none;
      eta = none;
      draught10 = none;
      destination = none;
      mothership_mmsi = if part_b then some (pick_u32 bv 132 30) else none;
    })

-- The response: complete if the store holds a part of the same vessel, else incomplete.
module _ {F T G : Type 0} where
  unfoldable pub respond :
      NmeaParser T → VesselStaticData T → NmeaParser T × Outcome (ParsedMessage F T G)
  respond store vsd =
      let (store', found) = pull_vsd store vsd.mmsi in
      elim found [
        | some vsd2 ↦ (store', merge vsd vsd2 >>= λ v. ok (ParsedMessage.vessel_static_data v))
        | none ↦ (push_vsd store' vsd.mmsi vsd, ok ParsedMessage.incomplete)
      ]

  abbrev respond_part :
      NmeaParser T → Outcome (VesselStaticData T) → NmeaParser T × Outcome (ParsedMessage F T G)
  respond_part store (ok vsd) = respond store vsd
  respond_part store (err e) = (store, err e)
  respond_part store panic = (store, panic)

  unfoldable pub handle :
      Bits → Station → NmeaParser T → Bool → NmeaParser T × Outcome (ParsedMessage F T G)
  handle bv station store own_vessel =
      respond_part store (part_number (pick_u64 bv 38 2) >>= static_part bv own_vessel)
