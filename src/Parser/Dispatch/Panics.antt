-- ===== src/Parser/Dispatch/Panics.antt =====
-- Where the handler of a message can panic.
use nmea_parser.Common.{
  ℕ, ◌^◌, ◌<◌, ◌≡◌, ◌⊎◌, inl, inr, ◌≢◌, Bool, ◌==◌, true, false, ==_iff, Bool-cases,
  unsupported_sentence_type, ◌&&◌, leb, if◌then◌else◌, some, pos, Outcome, err, panic, length,
}
use nmea_parser.Bits.{Bits}
use nmea_parser.Chrono.{Chrono}
use nmea_parser.Numbers.{F64}
use nmea_parser.Ais.Types.{Station}
use nmea_parser.Ais.Vdm.Slices.{header, single_slot_panics, multiple_slot_panics}
use nmea_parser.Ais.Vdm.Total.{
  t1t2t3-ne_panic, t4-ne_panic, t6-ne_panic, t9-ne_panic, t10-ne_panic, t11-ne_panic, t12-ne_panic,
  t13-ne_panic, t14-ne_panic, t15-ne_panic, t16-ne_panic, t17-ne_panic, t18-ne_panic, t19-ne_panic,
  t20-ne_panic, t21-ne_panic, t22-ne_panic, t23-ne_panic, t27-ne_panic, t5-ne_panic,
}
use nmea_parser.Parser.Dispatch.{ais_message}

-- A branch that does not panic.
pass :
    {A : Type 0} (b : Bool) {x y : Outcome A} → x ≢ panic → (if b then x else y) ≡ panic → y ≡ panic
pass true h e = absurd (h e)
pass false h e = e

last_three :
    {A S : Type 0}
    → (t : ℕ) (x y z : Outcome A) → (x ≡ panic → S)
    → (y ≡ panic → S)
    → z ≢ panic
    → (if t == 25
        then x
        else if t == 26
        then y
        else if t == 27
        then z
        else err unsupported_sentence_type)
      ≡ panic
    → ((t ≡ 25) ⊎ (t ≡ 26)) × S
last_three t x y z hx hy hz e = elim (Bool-cases (t == 25)) [
  | inl p ↦ (inl ((==_iff t 25).0 p), hx (cc (p, e)))
  | inr p ↦ elim (Bool-cases (t == 26)) [
    | inl q ↦ (inr ((==_iff t 26).0 q), hy (cc (p, q, e)))
    | inr q ↦
        absurd
          (elim (Bool-cases (t == 27)) [ inl r ↦ hz (cc (p, q, r, e)) | inr r ↦ cc (p, q, r, e) ])
  ]
]

module _ {F T G : Type 0} (f64 : F64 F) (chrono : Chrono T) (overflow_checks : Bool) (start : T)
    (clock : chrono.with_ymd_and_hms (pos 2000) 1 1 0 0 0 ≡ some start) where
  -- Where chrono gives the first second of 2000, the handler of a message of less than 2 ^ 64 bits
  -- of any type but 24 panics only for types 25 and 26, and there only on a message that ends
  -- inside its header.
  pub ais_message_panics :
      (t : ℕ) (bv : Bits) (s : Station) (own : Bool)
      → length bv < 2 ^ 64
      → ais_message {G = G} f64 chrono overflow_checks t bv s own ≡ panic
      → ((t ≡ 25) ⊎ (t ≡ 26)) × (length bv < header bv)
  unfolding ais_message
  ais_message_panics t bv s own small e =
      let rest = pass (t == 23) (t23-ne_panic f64 chrono bv s own) (
        pass (t == 22) (t22-ne_panic f64 chrono bv s own) (
          pass (t == 21) (t21-ne_panic f64 chrono bv s own) (
            pass (t == 20) (t20-ne_panic f64 chrono bv s own) (
              pass (t == 19) (t19-ne_panic f64 chrono bv s own) (
                pass (t == 18) (t18-ne_panic f64 chrono bv s own) (
                  pass (t == 17) (t17-ne_panic f64 chrono bv s own) (
                    pass (t == 16) (t16-ne_panic f64 chrono bv s own) (
                      pass (t == 15) (t15-ne_panic f64 chrono bv s own) (
                        pass (t == 14) (t14-ne_panic f64 chrono bv s own) (
                          pass (t == 13) (t13-ne_panic f64 chrono bv s own) (
                            pass (t == 12) (t12-ne_panic f64 chrono bv s own) (
                              pass (t == 11) (t11-ne_panic f64 chrono bv s own) (
                                pass (t == 10) (t10-ne_panic f64 chrono bv s own) (
                                  pass (t == 9) (t9-ne_panic f64 chrono bv s own) (
                                    pass (t == 6) (t6-ne_panic f64 chrono bv s own) (
                                      pass (t == 5) (t5-ne_panic f64 chrono bv s own start clock) (
                                        pass (t == 4) (t4-ne_panic f64 chrono bv s own) (
                                          pass (leb 1 t && leb t 3)
                                            (t1t2t3-ne_panic f64 chrono bv s own)
                                            (e))))))))))))))))))) in
      last_three t _ _ _ (single_slot_panics bv s own).0
        (multiple_slot_panics bv s own overflow_checks small).0 (t27-ne_panic f64 chrono bv s own)
        rest
