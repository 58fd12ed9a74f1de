-- ===== src/Parser/Vdm/Untouched.antt =====
-- The static data of vessels, which the fragments of AIS messages leave alone.
use nmea_parser.Common.{◌≡◌, Bool, arith}
use nmea_parser.Text.{Text}
use nmea_parser.Store.{NmeaParser, push_string, pull_string}
use nmea_parser.Parser.Vdm.{VdmFields, take_fragment, two_fragments, assemble}

module _ {T : Type 0} (checks : Bool) (self : NmeaParser T) where
  take_fragment-saved_vsds :
      (own other payload : Text) (join : Text → Text)
      → (take_fragment checks self own other payload join).0.saved_vsds ≡ self.saved_vsds
  unfolding take_fragment push_string pull_string
  take_fragment-saved_vsds own other payload join = ground arith

  pub assemble-saved_vsds :
      (sentence_type : Text) (fields : VdmFields)
      → (assemble checks self sentence_type fields).0.saved_vsds ≡ self.saved_vsds
  unfolding assemble two_fragments
  assemble-saved_vsds sentence_type fields = grind (arith, take_fragment-saved_vsds)
