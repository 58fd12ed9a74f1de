-- ===== src/Json/FixedOffset.antt =====
-- json_fixed_offset.rs: an optional time zone as its seconds to the east.
use nmea_parser.Common.{ℤ, Option, none, some, ◌≡◌, ◌⊎◌, inl, inr}
use nmea_parser.Json.{Format, ◌>>=◌}

-- What the adapter calls of chrono: `Z` stands for `FixedOffset`; `invalid_offset` is the error of the
-- format for "Invalid offset".
pub record Offsets (Z E : Type 0) : Type 0 where
  pub local_minus_utc : Z → ℤ
  pub east_opt : ℤ → Option Z
  pub invalid_offset : E

module _ {V Z E : Type 0} (format : Format V E) (offsets : Offsets Z E) where
  unfoldable pub serialize : Option Z → E ⊎ V
  serialize (some o) = format.serialize_i32 (offsets.local_minus_utc o)
  serialize none = format.serialize_none

  abbrev offset_or_error : ℤ → E ⊎ Option Z
  offset_or_error seconds = elim (offsets.east_opt seconds) [
    | some o ↦ inr (some o)
    | none ↦ inl offsets.invalid_offset
  ]

  unfoldable pub deserialize : V → E ⊎ Option Z
  deserialize value = do
    offset_seconds ← format.deserialize_i32 value
    elim offset_seconds [ some seconds ↦ offset_or_error seconds | none ↦ inr none ]

  -- What was written of a time zone is read back as the zone, and of none as none, where the format
  -- reads back what it wrote, and the zone of the seconds of a zone is that zone.
  pub deserialize-serialize :
      (offset : Option Z) (value : V)
      → serialize offset ≡ inr value
      → ((o : Z) (v : V)
          → format.serialize_i32 (offsets.local_minus_utc o) ≡ inr v
          → format.deserialize_i32 v ≡ inr (some (offsets.local_minus_utc o)))
      → ((v : V) → format.serialize_none ≡ inr v → format.deserialize_i32 v ≡ inr none)
      → ((o : Z) → offsets.east_opt (offsets.local_minus_utc o) ≡ some o)
      → deserialize value ≡ inr offset
  unfolding serialize deserialize
  deserialize-serialize (some o) value written reads reads_none known =
      rw (reads o value written, known o, offset_or_error)
  deserialize-serialize none value written reads reads_none known = rw (reads_none value written)
