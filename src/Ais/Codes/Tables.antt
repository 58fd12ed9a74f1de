-- ===== src/Ais/Codes/Tables.antt =====
-- The codes against an arithmetic description, over every u8.
use nmea_parser.Common.{
  ℕ, zero, suc, ◌+◌, ◌*◌, ◌/◌, ◌%◌, ◌<◌, ◌≡◌, refl, Bool, true, ◌&&◌, ◌||◌, ◌==◌, leb, ltb,
  if◌then◌else◌, arith,
}
use nmea_parser.Ais.Types.{NavigationStatus, ShipType}
use nmea_parser.Ais.Codes.{
  navigation_status, navigation_status_value, ship_type, ship_type_value, cargo_type,
  cargo_type_value, position_fix_type, position_fix_type_value,
}

module _ (f g : ℕ → ℕ) where
  agree_below : ℕ → Bool
  agree_below zero = true
  agree_below (suc n) = f n == g n && agree_below n

  agree_below→eq : (n : ℕ) → agree_below n ≡ true → (i : ℕ) → i < n → f i ≡ g i
  unfolding agree_below
  agree_below→eq zero e i h = absurd (omega arith)
  agree_below→eq (suc n) e i h = ground (arith, agree_below→eq n (ground arith) i)

-- The navigation status keeps its code, and 15 stands for every code above.
pub navigation_status_value-navigation_status :
    (raw : ℕ)
    → raw < 256
    → navigation_status_value (navigation_status raw) ≡ (if ltb raw 15 then raw else 15)
unfolding agree_below navigation_status navigation_status_value
navigation_status_value-navigation_status = agree_below→eq _ _ 256 refl

pub navigation_status-navigation_status_value :
    (s : NavigationStatus) → navigation_status (navigation_status_value s) ≡ s
unfolding navigation_status navigation_status_value
navigation_status-navigation_status_value NavigationStatus.under_way_using_engine = refl
navigation_status-navigation_status_value _ = refl

-- The ship type is exact in the thirties and fifties, the tens digit elsewhere from 10 to 99, and
-- not available for every other code.
pub ship_type_value-ship_type :
    (raw : ℕ)
    → raw < 256
    → ship_type_value (ship_type raw)
      ≡ (if raw / 10 == 3 || raw / 10 == 5 then raw else if ltb raw 100 then raw / 10 * 10 else 0)
unfolding agree_below ship_type ship_type_value
ship_type_value-ship_type = agree_below→eq _ _ 256 refl

pub ship_type-ship_type_value : (s : ShipType) → ship_type (ship_type_value s) ≡ s
unfolding ship_type ship_type_value
ship_type-ship_type_value ShipType.not_available = refl
ship_type-ship_type_value _ = refl

-- The cargo type is the ones digit of the codes 10 to 29, 40 to 49 and 60 to 99, and undefined for
-- every other code.
pub cargo_type_value-cargo_type :
    (raw : ℕ)
    → raw < 256
    → cargo_type_value (cargo_type raw) ≡ (
        if (leb 10 raw && ltb raw 30) || raw / 10 == 4 || (leb 60 raw && ltb raw 100)
        then 10 + raw % 10
        else 10)
unfolding agree_below cargo_type cargo_type_value
cargo_type_value-cargo_type = agree_below→eq _ _ 256 refl

-- The position fix type keeps its code from 0 to 8, and is undefined for every other code.
pub position_fix_type_value-position_fix_type :
    (raw : ℕ)
    → raw < 256
    → position_fix_type_value (position_fix_type raw) ≡ (if ltb raw 9 then raw else 0)
unfolding agree_below position_fix_type position_fix_type_value
position_fix_type_value-position_fix_type = agree_below→eq _ _ 256 refl
