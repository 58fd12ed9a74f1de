-- ===== src/Store.antt =====
-- lib.rs: the state of `NmeaParser`. A `HashMap` is an association list: `insert` replaces the value
-- of a key that is there, `remove` drops the key.
pub mod Laws
use nmea_parser.Common.{
  ℕ, suc, Bool, true, false, Option, none, some, List, [], ◌∷◌, ◌==◌, if◌then◌else◌, length,
}
use nmea_parser.Text.{Text, eq_text}
use nmea_parser.Ais.Data.{VesselStaticData}

module _ {K V : Type 0} (same_key : K → K → Bool) where
  unfoldable pub lookup : K → List (K × V) → Option V
  lookup key [] = none
  lookup key ((held, value) ∷ entries) =
      let rest = lookup key entries in if same_key held key then some value else rest

  unfoldable pub insert : K → V → List (K × V) → List (K × V)
  insert key value [] = (key, value) ∷ []
  insert key value ((held, old) ∷ entries) =
      let rest = insert key value entries in
      if same_key held key then (key, value) ∷ entries else (held, old) ∷ rest

  unfoldable pub remove : K → List (K × V) → List (K × V)
  remove key [] = []
  remove key ((held, value) ∷ entries) =
      let rest = remove key entries in if same_key held key then rest else (held, value) ∷ rest

pub record NmeaParser (T : Type 0) : Type 0 where
  pub saved_fragments : List (Text × Text)
  pub saved_vsds : List (ℕ × VesselStaticData T)

abbrev pub eq_mmsi : ℕ → ℕ → Bool
eq_mmsi a b = a == b

abbrev is_some : {V : Type 0} → Option V → Bool
is_some none = false
is_some (some v) = true

module _ {T : Type 0} where
  unfoldable pub new : NmeaParser T
  new = record { saved_fragments = []; saved_vsds = [] }

  unfoldable pub reset : NmeaParser T → NmeaParser T
  reset self = record { saved_fragments = []; saved_vsds = [] }

  unfoldable pub push_string : NmeaParser T → Text → Text → NmeaParser T
  unfolding insert
  push_string self key value = record self {
    saved_fragments = insert eq_text key value self.saved_fragments;
  }

  unfoldable pub pull_string : NmeaParser T → Text → NmeaParser T × Option Text
  unfolding lookup remove
  pull_string self key = (
    record self { saved_fragments = remove eq_text key self.saved_fragments },
    lookup eq_text key self.saved_fragments,
  )

  unfoldable pub contains_key : NmeaParser T → Text → Bool
  unfolding lookup
  contains_key self key = is_some (lookup eq_text key self.saved_fragments)

  unfoldable pub strings_count : NmeaParser T → ℕ
  strings_count self = length self.saved_fragments

  unfoldable pub push_vsd : NmeaParser T → ℕ → VesselStaticData T → NmeaParser T
  unfolding insert
  push_vsd self mmsi vsd = record self { saved_vsds = insert eq_mmsi mmsi vsd self.saved_vsds }

  unfoldable pub pull_vsd : NmeaParser T → ℕ → NmeaParser T × Option (VesselStaticData T)
  unfolding lookup remove
  pull_vsd self mmsi = (
    record self { saved_vsds = remove eq_mmsi mmsi self.saved_vsds },
    lookup eq_mmsi mmsi self.saved_vsds,
  )

  unfoldable pub vsds_count : NmeaParser T → ℕ
  vsds_count self = length self.saved_vsds
