-- ===== src/Json.antt =====
-- The adapters of the serde library, which is a parameter: a format with its values `V` and its
-- errors `E`, of which nothing is assumed here.
pub mod DateTimeUtc
pub mod FixedOffset
use nmea_parser.Common.{ℤ, Option, ◌⊎◌, inl, inr}
use nmea_parser.Text.{Text}

-- What the adapters call of a `Serializer` and of a `Deserializer`: writing a text, an `i32` or
-- nothing, and reading an optional text or an optional `i32`.
pub record Format (V E : Type 0) : Type 0 where
  pub serialize_text : Text → E ⊎ V
  pub serialize_i32 : ℤ → E ⊎ V
  pub serialize_none : E ⊎ V
  pub deserialize_text : V → E ⊎ Option Text
  pub deserialize_i32 : V → E ⊎ Option ℤ

infixl 5 ◌>>=◌
-- `?` on a `Result`.
abbrev pub ◌>>=◌ : {E A B : Type 0} → E ⊎ A → (A → E ⊎ B) → E ⊎ B
inl e >>= f = inl e
inr a >>= f = f a
