-- ===== src/Store/Laws.antt =====
-- The maps of the store as functions of their keys.
use nmea_parser.Common.{
  ℕ, suc, ◌≤◌, length, Bool, true, none, some, List, [], ◌∷◌, if◌then◌else◌, arith, ◌≡◌, ◌↔◌, refl,
}
use nmea_parser.Store.{
  VesselStaticData, eq_mmsi, eq_text, Text, pull_string, push_vsd, pull_vsd, push_string,
  strings_count, vsds_count, NmeaParser, lookup, insert, remove,
}

module _ {K V : Type 0} (same_key : K → K → Bool)
    (same_iff : (a b : K) → (same_key a b ≡ true) ↔ (a ≡ b)) where
  pub lookup-insert :
      (entries : List (K × V)) (key other : K) (value : V)
      → lookup same_key other (insert same_key key value entries)
        ≡ (if same_key key other then some value else lookup same_key other entries)
  unfolding insert lookup
  lookup-insert [] key other value = refl
  lookup-insert ((held, old) ∷ entries) key other value = ground (
    arith,
    lookup-insert entries key other value,
    same_iff held key,
    same_iff held other,
    same_iff key other,
  )

  pub lookup-remove :
      (entries : List (K × V)) (key other : K)
      → lookup same_key other (remove same_key key entries)
        ≡ (if same_key key other then none else lookup same_key other entries)
  unfolding remove lookup
  lookup-remove [] key other = ground arith
  lookup-remove ((held, old) ∷ entries) key other = ground (
    arith,
    lookup-remove entries key other,
    same_iff held key,
    same_iff held other,
    same_iff key other,
  )

-- A map grows by one entry at most, and only by `insert`.
module _ {K V : Type 0} (same_key : K → K → Bool) where
  length-insert :
      (entries : List (K × V)) (key : K) (value : V)
      → length (insert same_key key value entries) ≤ suc (length entries)
  unfolding insert
  length-insert [] key value = omega arith
  length-insert ((held, old) ∷ entries) key value = ground (arith, length-insert entries key value)

  length-remove :
      (entries : List (K × V)) (key : K) → length (remove same_key key entries) ≤ length entries
  unfolding remove
  length-remove [] key = omega arith
  length-remove ((held, old) ∷ entries) key = ground (arith, length-remove entries key)

module _ {T : Type 0} (self : NmeaParser T) where
  pub strings_count-push_string :
      (key value : Text) → strings_count (push_string self key value) ≤ suc (strings_count self)
  unfolding strings_count push_string
  strings_count-push_string key value = length-insert eq_text self.saved_fragments key value

  pub strings_count-pull_string :
      (key : Text) → strings_count (pull_string self key).0 ≤ strings_count self
  unfolding strings_count pull_string
  strings_count-pull_string key = length-remove eq_text self.saved_fragments key

  pub vsds_count-push_vsd :
      (mmsi : ℕ) (vsd : VesselStaticData T)
      → vsds_count (push_vsd self mmsi vsd) ≤ suc (vsds_count self)
  unfolding vsds_count push_vsd
  vsds_count-push_vsd mmsi vsd = length-insert eq_mmsi self.saved_vsds mmsi vsd

  pub vsds_count-pull_vsd : (mmsi : ℕ) → vsds_count (pull_vsd self mmsi).0 ≤ vsds_count self
  unfolding vsds_count pull_vsd
  vsds_count-pull_vsd mmsi = length-remove eq_mmsi self.saved_vsds mmsi
