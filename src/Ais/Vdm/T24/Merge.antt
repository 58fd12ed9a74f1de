-- ===== src/Ais/Vdm/T24/Merge.antt =====
-- The two parts of a static data report and what `merge` makes of them.
use nmea_parser.Common.{ℕ, ◌≡◌, refl, Bool, true, false, ==_iff, Option, none, some, ok}
use nmea_parser.Text.{Text}
use nmea_parser.Bits.{Bits}
use nmea_parser.Bits.Chars.{pick_string-IsAisText}
use nmea_parser.Ais.Types.{AisClass, ShipType, CargoType}
use nmea_parser.Ais.Codes.{ship_type, cargo_type}
use nmea_parser.Ais.Data.{VesselStaticData}
use nmea_parser.Ais.Fields.{pick_u8, pick_u16, pick_u32, non_empty}
use nmea_parser.Ais.Vdm.T24.{choose_some, choose_ship_type, choose_cargo_type, merge, static_part}

choose_some-none : {A : Type 0} (o : Option A) → choose_some o none ≡ o
unfolding choose_some
choose_some-none none = refl
choose_some-none (some a) = refl

choose_ship_type-not_available : (s : ShipType) → choose_ship_type s ShipType.not_available ≡ s
unfolding choose_ship_type
choose_ship_type-not_available ShipType.not_available = refl
choose_ship_type-not_available _ = refl

choose_cargo_type-undefined : (c : CargoType) → choose_cargo_type c CargoType.undefined ≡ c
unfolding choose_cargo_type
choose_cargo_type-undefined CargoType.undefined = refl
choose_cargo_type-undefined _ = refl

module _ {T : Type 0} where
  -- A report with nothing but a name.
  abbrev pub part_a : Bool → ℕ → Option Text → VesselStaticData T
  part_a own mmsi name = record {
    own_vessel = own;
    ais_type = AisClass.class_b;
    mmsi = mmsi;
    ais_version_indicator = 0;
    imo_number = none;
    call_sign = none;
    name = name;
    ship_type = ShipType.not_available;
    cargo_type = CargoType.undefined;
    equipment_vendor_id = none;
    equipment_model = none;
    equipment_serial_number = none;
    dimension_to_bow = none;
    dimension_to_stern = none;
    dimension_to_port = none;
    dimension_to_starboard = none;
    position_fix_type = none;
    eta = none;
    draught10 = none;
    destination = none;
    mothership_mmsi = none;
  }

  -- A report with the fields that part B has in its bits, its two texts given, and a name.
  abbrev pub full_report : Bits → Bool → ℕ → Option Text → Text → Option Text → VesselStaticData T
  full_report bv own mmsi call_sign vendor name = record {
    own_vessel = own;
    ais_type = AisClass.class_b;
    mmsi = mmsi;
    ais_version_indicator = 0;
    imo_number = none;
    call_sign = call_sign;
    name = name;
    ship_type = ship_type (pick_u8 bv 40 8);
    cargo_type = cargo_type (pick_u8 bv 40 8);
    equipment_vendor_id = some vendor;
    equipment_model = some (pick_u8 bv 66 4);
    equipment_serial_number = some (pick_u32 bv 70 20);
    dimension_to_bow = some (pick_u16 bv 132 9);
    dimension_to_stern = some (pick_u16 bv 141 9);
    dimension_to_port = some (pick_u16 bv 150 6);
    dimension_to_starboard = some (pick_u16 bv 156 6);
    position_fix_type = none;
    eta = none;
    draught10 = none;
    destination = none;
    mothership_mmsi = some (pick_u32 bv 132 30);
  }

  pub static_part-a :
      (bv : Bits) (own : Bool)
      → (name : Option Text) × (static_part bv own false ≡ ok (part_a own (pick_u32 bv 8 30) name))
  unfolding static_part
  static_part-a bv own = let (t, e, _, _) = pick_string-IsAisText bv 40 120 in (non_empty t, rw e)

  pub static_part-b :
      (bv : Bits) (own : Bool)
      → (call_sign : Option Text) × (vendor : Text) × (static_part bv own true
          ≡ ok (full_report bv own (pick_u32 bv 8 30) call_sign vendor none))
  unfolding static_part
  static_part-b bv own =
      let (t, e, _, _) = pick_string-IsAisText bv 90 7 in
      let (v, e', _, _) = pick_string-IsAisText bv 48 3 in (non_empty t, v, rw (e, e'))

  -- Merging the parts of one vessel joins the name of A with the fields of B, in either order.
  pub merge-a-b :
      (bv : Bits) (own : Bool) (m : ℕ) (call_sign : Option Text) (vendor : Text)
      (name : Option Text)
      → merge (part_a own m name) (full_report bv own m call_sign vendor none)
        ≡ ok (full_report bv own m call_sign vendor name)
  unfolding merge
  merge-a-b bv own m call_sign vendor name = rw ((==_iff m m).1 refl, choose_some-none name)

  pub merge-b-a :
      (bv : Bits) (own : Bool) (m : ℕ) (call_sign : Option Text) (vendor : Text)
      (name : Option Text)
      → merge (full_report bv own m call_sign vendor none) (part_a own m name)
        ≡ ok (full_report bv own m call_sign vendor name)
  unfolding merge
  merge-b-a bv own m call_sign vendor name = rw (
    (==_iff m m).1 refl,
    choose_some-none call_sign,
    choose_ship_type-not_available (ship_type (pick_u8 bv 40 8)),
    choose_cargo_type-undefined (cargo_type (pick_u8 bv 40 8)),
  )

  pub merge-a-a :
      (own : Bool) (m : ℕ) (name name' : Option Text)
      → merge {T = T} (part_a own m name') (part_a own m name)
        ≡ ok (part_a own m (choose_some name' name))
  unfolding merge
  merge-a-a own m name name' = rw ((==_iff m m).1 refl)
