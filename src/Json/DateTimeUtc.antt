-- ===== src/Json/DateTimeUtc.antt =====
-- json_date_time_utc.rs: an optional time as its RFC 3339 text.
use nmea_parser.Common.{Option, none, some, ◌≡◌, ◌⊎◌, inl, inr}
use nmea_parser.Text.{Text}
use nmea_parser.Json.{Format, ◌>>=◌}

-- What the adapter calls of chrono: `T` stands for `DateTime<Utc>`, `D` for the `DateTime` with an
-- offset that is read, `N` for `NaiveDateTime` and `P` for the error of the parser, which `custom`
-- makes an error of the format.
pub record Rfc3339 (T D N P E : Type 0) : Type 0 where
  pub to_rfc3339 : T → Text
  pub parse_from_rfc3339 : Text → P ⊎ D
  pub naive_utc : D → N
  pub custom : P → E

module _ {V T D N P E : Type 0} (format : Format V E) (rfc : Rfc3339 T D N P E) where
  unfoldable pub serialize : Option T → E ⊎ V
  serialize (some t) = format.serialize_text (rfc.to_rfc3339 t)
  serialize none = format.serialize_none

  abbrev parse : Text → E ⊎ D
  parse t = elim (rfc.parse_from_rfc3339 t) [ inl e ↦ inl (rfc.custom e) | inr d ↦ inr d ]

  unfoldable pub deserialize : V → E ⊎ Option N
  deserialize value = do
    time ← format.deserialize_text value
    elim time [ some t ↦ (parse t >>= λ dt. inr (some (rfc.naive_utc dt))) | none ↦ inr none ]

  -- What was written of a time is read back as its time in UTC without the zone, where the format
  -- reads back the text that it wrote and chrono the time that it printed.
  pub deserialize-serialize :
      (t : T) (value : V) (d : D)
      → serialize (some t) ≡ inr value
      → format.deserialize_text value ≡ inr (some (rfc.to_rfc3339 t))
      → rfc.parse_from_rfc3339 (rfc.to_rfc3339 t) ≡ inr d
      → deserialize value ≡ inr (some (rfc.naive_utc d))
  unfolding deserialize
  deserialize-serialize t value d written read parsed = rw (read, parsed, parse)
