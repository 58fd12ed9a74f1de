-- ===== src/Parser/Dispatch/Senders.antt =====
-- Who an AIS message is from, and what kind of message its type is answered by.
use nmea_parser.Common.{
  ℕ, ◌≡◌, ◌≢◌, refl, Bool, true, false, ◌&&◌, ◌||◌, leb, ◌==◌, some, Outcome, ok, length, arith,
}
use nmea_parser.Bits.{Bits, pick_u64, pick_string}
use nmea_parser.Eta.{pick_eta}
use nmea_parser.Numbers.{F64}
use nmea_parser.Chrono.{Chrono}
use nmea_parser.Message.{ParsedMessage}
use nmea_parser.Ais.Types.{Station}
use nmea_parser.Ais.Fields.{flag, pick_u8, pick_u32}
use nmea_parser.Ais.Vdm
use nmea_parser.Parser.Vdm.{VdmFields, assemble}
use nmea_parser.Parser.Vdm.Halves.{vdm_type}
use nmea_parser.Text.{Text}
use nmea_parser.Store.{NmeaParser}
use nmea_parser.Gnss.Libraries.{Libraries}
use nmea_parser.Gnss.Data.{GnssMessage}
use nmea_parser.Parser.Dispatch.{dispatch_message, ais_message, parse_sentence}
use nmea_parser.Parser.Dispatch.States.{Carries, on_bits-ok, parse_sentence-Carries}
use nmea_parser.Parser.Dispatch.Kinds.{
  is_kind_of, sender, AnswersAs, AnswersAs-ok, AnswersAs-bind, AnswersAs-if,
}

module _ {F T G : Type 0} (f64 : F64 F) (chrono : Chrono T) (overflow_checks : Bool) (t : ℕ)
    (bv : Bits) (s : Station) (own : Bool) where
  abbrev From : Outcome (ParsedMessage F T G) → Type 0
  From o = AnswersAs t (own, pick_u32 bv 8 30) o

  t1t2t3-From : (leb 1 t && leb t 3) ≡ true → From (Vdm.T1t2t3.handle f64 bv s own)
  unfolding Vdm.T1t2t3.handle
  t1t2t3-From e = AnswersAs-ok t _ _ (rw e) refl

  t4-From : (t == 4) ≡ true → From (Vdm.T4.handle f64 chrono bv s own)
  unfolding Vdm.T4.handle
  t4-From e = AnswersAs-bind t _ _ _ (λ a0. AnswersAs-ok t _ _ e refl)

  t5-From : (t == 5) ≡ true → From (Vdm.T5.handle chrono bv s own)
  unfolding Vdm.T5.handle
  t5-From e =
      let k : (t == 5 || t == 24) ≡ true = rw e in
      AnswersAs-bind t _ (pick_string bv 70 7) _ λ a.
        AnswersAs-bind t _ (pick_string bv 112 20) _ λ b.
          AnswersAs-bind t _ (pick_eta chrono bv 274) _
            λ c. AnswersAs-bind t _ (pick_string bv 302 20) _ λ d. AnswersAs-ok t _ _ k refl

  t6-From : (t == 6) ≡ true → From (Vdm.T6.handle bv s own)
  unfolding Vdm.T6.handle
  t6-From e = AnswersAs-ok t _ _ e refl

  t9-From : (t == 9) ≡ true → From (Vdm.T9.handle f64 bv s own)
  unfolding Vdm.T9.handle
  t9-From e = AnswersAs-ok t _ _ e refl

  t10-From : (t == 10) ≡ true → From (Vdm.T10.handle bv s own)
  unfolding Vdm.T10.handle
  t10-From e = AnswersAs-ok t _ _ e refl

  t11-From : (t == 11) ≡ true → From (Vdm.T11.handle f64 chrono bv s own)
  unfolding Vdm.T11.handle
  t11-From e = AnswersAs-bind t _ _ _ (λ a0. AnswersAs-ok t _ _ e refl)

  t12-From : (t == 12) ≡ true → From (Vdm.T12.handle bv s own)
  unfolding Vdm.T12.handle
  t12-From e = AnswersAs-bind t _ _ _ (λ a0. AnswersAs-ok t _ _ e refl)

  t13-From : (t == 13) ≡ true → From (Vdm.T13.handle bv s own)
  unfolding Vdm.T13.handle
  t13-From e = AnswersAs-ok t _ _ e refl

  t14-From : (t == 14) ≡ true → From (Vdm.T14.handle bv s own)
  unfolding Vdm.T14.handle
  t14-From e = AnswersAs-bind t _ _ _ (λ a0. AnswersAs-ok t _ _ e refl)

  t15-From : (t == 15) ≡ true → From (Vdm.T15.handle bv s own)
  unfolding Vdm.T15.handle
  t15-From e = AnswersAs-ok t _ _ e refl

  t16-From : (t == 16) ≡ true → From (Vdm.T16.handle bv s own)
  unfolding Vdm.T16.handle
  t16-From e = AnswersAs-ok t _ _ e refl

  t17-From : (t == 17) ≡ true → From (Vdm.T17.handle f64 bv s own)
  unfolding Vdm.T17.handle
  t17-From e = AnswersAs-ok t _ _ e refl

  t18-From : (t == 18) ≡ true → From (Vdm.T18.handle f64 bv s own)
  unfolding Vdm.T18.handle Vdm.T18.report
  t18-From e = AnswersAs-ok t _ _ (ground arith) refl

  t19-From : (t == 19) ≡ true → From (Vdm.T19.handle f64 bv s own)
  unfolding Vdm.T19.handle
  t19-From e = AnswersAs-ok t _ _ (ground arith) refl

  t20-From : (t == 20) ≡ true → From (Vdm.T20.handle bv s own)
  unfolding Vdm.T20.handle
  t20-From e = AnswersAs-ok t _ _ e refl

  t21-From : (t == 21) ≡ true → From (Vdm.T21.handle f64 bv s own)
  unfolding Vdm.T21.handle
  t21-From e =
      AnswersAs-bind t _ (Vdm.T21.or_not_specified (Vdm.T21.nav_aid_type (pick_u8 bv 38 5))) _ λ a.
        AnswersAs-bind t _ (pick_string bv 43 20) _
          λ b. AnswersAs-bind t _ (pick_string bv 272 14) _ λ c. AnswersAs-ok t _ _ e refl

  t22-From : (t == 22) ≡ true → From (Vdm.T22.handle f64 bv s own)
  unfolding Vdm.T22.handle
  t22-From e = AnswersAs-ok t _ _ e refl

  t23-From : (t == 23) ≡ true → From (Vdm.T23.handle f64 bv s own)
  unfolding Vdm.T23.handle
  t23-From e = AnswersAs-bind t _ (Vdm.T23.station_type (pick_u8 bv 110 4)) _ λ a.
      AnswersAs-bind t _ (Vdm.T23.txrx_mode (pick_u8 bv 144 2)) _ λ b.
        AnswersAs-bind t _ (Vdm.T23.station_interval (pick_u8 bv 146 4)) _ λ c.
          AnswersAs-bind t _ (Vdm.T23.quiet_time (pick_u8 bv 150 4)) _
            λ d. AnswersAs-ok t _ _ e refl

  t25-From : (t == 25) ≡ true → From (Vdm.T25.handle bv s own)
  unfolding Vdm.T25.handle
  t25-From e = AnswersAs-bind t _ _ _ (λ a0. AnswersAs-ok t _ _ e refl)

  t26-From : (t == 26) ≡ true → From (Vdm.T26.handle overflow_checks bv s own)
  unfolding Vdm.T26.handle
  t26-From e = AnswersAs-bind t _ (Vdm.T26.before_radio overflow_checks (length bv)) _ λ end.
      AnswersAs-bind t _ (Vdm.T25.slice_from bv (Vdm.T25.data_start (flag bv 38) (flag bv 39)) end)
        _ λ bits. AnswersAs-ok t _ _ e refl

  t27-From : (t == 27) ≡ true → From (Vdm.T27.handle f64 bv s own)
  unfolding Vdm.T27.handle Vdm.T27.report
  t27-From e = AnswersAs-ok t _ _ (ground arith) refl

  ais_message-From : From (ais_message f64 chrono overflow_checks t bv s own)
  unfolding ais_message
  ais_message-From = AnswersAs-if t _ (leb 1 t && leb t 3) _ _ t1t2t3-From (
      AnswersAs-if t _ (t == 4) _ _ t4-From (
        AnswersAs-if t _ (t == 5) _ _ t5-From (
          AnswersAs-if t _ (t == 6) _ _ t6-From (
            AnswersAs-if t _ (t == 9) _ _ t9-From (
              AnswersAs-if t _ (t == 10) _ _ t10-From (
                AnswersAs-if t _ (t == 11) _ _ t11-From (
                  AnswersAs-if t _ (t == 12) _ _ t12-From (
                    AnswersAs-if t _ (t == 13) _ _ t13-From (
                      AnswersAs-if t _ (t == 14) _ _ t14-From (
                        AnswersAs-if t _ (t == 15) _ _ t15-From (
                          AnswersAs-if t _ (t == 16) _ _ t16-From (
                            AnswersAs-if t _ (t == 17) _ _ t17-From (
                              AnswersAs-if t _ (t == 18) _ _ t18-From (
                                AnswersAs-if t _ (t == 19) _ _ t19-From (
                                  AnswersAs-if t _ (t == 20) _ _ t20-From (
                                    AnswersAs-if t _ (t == 21) _ _ t21-From (
                                      AnswersAs-if t _ (t == 22) _ _ t22-From (
                                        AnswersAs-if t _ (t == 23) _ _ t23-From (
                                          AnswersAs-if t _ (t == 25) _ _ t25-From (
                                            AnswersAs-if t _ (t == 26) _ _ t26-From (
                                              AnswersAs-if t _ (t == 27) _ _ t27-From
                                                (λ m e. cc))))))))))))))))))))))

  -- Whatever its bits, an AIS message of a type but 24 that is answered by a message is answered by
  -- the kind of message that stands for its type, from the own vessel or not as its sentence says,
  -- and from the MMSI in the 30 bits behind the first eight.
  pub ais_message-sender :
      (m : ParsedMessage F T G)
      → ais_message f64 chrono overflow_checks t bv s own ≡ ok m
      → (is_kind_of m t ≡ true) × (sender m ≡ some (own, pick_u32 bv 8 30))
  ais_message-sender = ais_message-From

module _ {F S T Z : Type 0} (f64 : F64 F) (chrono : Chrono T) (libs : Libraries S Z) (checks : Bool)
    (self : NmeaParser T) where
  -- An AIS sentence, of the own vessel or not, that completes the bits of a message of a type but 24
  -- and is answered by a message is answered by the kind of message that stands for its type, as of
  -- the own vessel or not, and from the MMSI in the 30 bits behind the first eight.
  pub parse_sentence-sender :
      (text : Text) (own : Bool) (s : Station) (fields : VdmFields) (bv : Bits)
      (m : ParsedMessage F T (GnssMessage F S T Z))
      → Carries text own s fields
      → (assemble checks self (vdm_type own) fields).1 ≡ ok (some bv)
      → pick_u64 bv 0 6 ≢ 24
      → (parse_sentence f64 chrono libs checks self text).1 ≡ ok m
      → (is_kind_of m (pick_u64 bv 0 6) ≡ true) × (sender m ≡ some (own, pick_u32 bv 8 30))
  unfolding dispatch_message
  parse_sentence-sender text own s fields bv m c e other answered =
      let not_24 : (pick_u64 bv 0 6 == 24) ≡ false = ground (arith, other) in
      let answer : ais_message {G = GnssMessage F S T Z} f64 chrono checks (pick_u64 bv 0 6) bv s
            own
          ≡ ok m =
        rw
          (
            parse_sentence-Carries f64 chrono libs checks self text own s fields c,
            on_bits-ok (assemble checks self (vdm_type own) fields) bv
                (λ self' bv'.
                  dispatch_message {G = GnssMessage F S T Z} f64 chrono checks self' bv' s own)
                e,
            not_24,
          )
          at answered in
      ais_message-sender f64 chrono checks (pick_u64 bv 0 6) bv s own m answer
