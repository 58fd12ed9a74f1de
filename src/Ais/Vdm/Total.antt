-- ===== src/Ais/Vdm/Total.antt =====
-- The message handlers that never panic.
use nmea_parser.Common.{
  ℕ, ◌+◌, ◌%◌, ◌^◌, ◌<◌, ◌≡◌, ◌≢◌, Bool, some, arith, ℤ, pos, Outcome, panic, bind-ne_panic,
}
use nmea_parser.Bits.{Bits, pick_u64}
use nmea_parser.Bits.Pick.{pick_u64-lt}
use nmea_parser.Bits.Chars.{pick_string-IsAisText}
use nmea_parser.Chrono.{Chrono, parse_valid_utc, parse_ymdhs}
use nmea_parser.Numbers.{F64}
use nmea_parser.Eta.{choose_eta, complete_eta, pick_eta_with_now, pick_eta}
use nmea_parser.Ais.Types.{Station}
use nmea_parser.Ais.Vdm.T4
use nmea_parser.Ais.Vdm.T1t2t3
use nmea_parser.Ais.Vdm.T6
use nmea_parser.Ais.Vdm.T9
use nmea_parser.Ais.Vdm.T10
use nmea_parser.Ais.Vdm.T13
use nmea_parser.Ais.Vdm.T15
use nmea_parser.Ais.Vdm.T16
use nmea_parser.Ais.Vdm.T17
use nmea_parser.Ais.Vdm.T18
use nmea_parser.Ais.Vdm.T19
use nmea_parser.Ais.Vdm.T20
use nmea_parser.Ais.Vdm.T22
use nmea_parser.Ais.Vdm.T27
use nmea_parser.Ais.Vdm.T5
use nmea_parser.Ais.Vdm.T11
use nmea_parser.Ais.Vdm.T12
use nmea_parser.Ais.Vdm.T14
use nmea_parser.Ais.Vdm.T21
use nmea_parser.Ais.Vdm.T23
use nmea_parser.Ais.Vdm.T21.{nav_aid_type, or_not_specified}
use nmea_parser.Ais.Vdm.T23.{station_type, station_interval, txrx_mode, quiet_time}
use nmea_parser.Ais.Fields.{pick_u8}

module _ {T : Type 0} (chrono : Chrono T) where
  pub parse_valid_utc-ne_panic :
      (y : ℤ) (m d h min sec nano : ℕ) → parse_valid_utc chrono y m d h min sec nano ≢ panic
  unfolding parse_valid_utc
  parse_valid_utc-ne_panic y m d h min sec nano = ground arith

  choose_eta-ne_panic :
      (now : T) (a b : Outcome T) → a ≢ panic → b ≢ panic → choose_eta chrono now a b ≢ panic
  unfolding choose_eta
  choose_eta-ne_panic now a b h k = ground arith

  complete_eta-ne_panic : (now : T) (m d h min : ℕ) → complete_eta chrono now m d h min ≢ panic
  unfolding complete_eta
  complete_eta-ne_panic now m d h min =
      choose_eta-ne_panic now _ _ (parse_valid_utc-ne_panic _ _ _ _ _ 30 0)
        (parse_valid_utc-ne_panic _ _ _ _ _ 30 0)

  pick_eta-ne_panic :
      (bv : Bits) (index : ℕ) (start : T)
      → chrono.with_ymd_and_hms (pos 2000) 1 1 0 0 0 ≡ some start
      → pick_eta chrono bv index ≢ panic
  unfolding pick_eta pick_eta_with_now
  pick_eta-ne_panic bv index start e = rw e (
      ground (
        arith,
        complete_eta-ne_panic start (pick_u64 bv index 4 % 2 ^ 32)
            (pick_u64 bv (index + 4) 5 % 2 ^ 32) (pick_u64 bv (index + 4 + 5) 5 % 2 ^ 32)
            (pick_u64 bv (index + 4 + 5 + 5) 6 % 2 ^ 32),
      ))

nav_aid_type-ne_panic : (raw : ℕ) → or_not_specified (nav_aid_type raw) ≢ panic
unfolding nav_aid_type
nav_aid_type-ne_panic raw = ground arith

station_type-ne_panic : (raw : ℕ) → station_type raw ≢ panic
unfolding station_type
station_type-ne_panic raw = ground arith

station_interval-ne_panic : (raw : ℕ) → station_interval raw ≢ panic
unfolding station_interval
station_interval-ne_panic raw = ground arith

txrx_mode-ne_panic : (raw : ℕ) → txrx_mode raw ≢ panic
txrx_mode-ne_panic raw = ground arith

quiet_time-ne_panic : (raw : ℕ) → raw < 16 → quiet_time raw ≢ panic
quiet_time-ne_panic raw h = ground arith

module _ {F T G : Type 0} (f64 : F64 F) (chrono : Chrono T) (bv : Bits) (s : Station)
    (own : Bool) where
  pub t4-ne_panic : T4.handle {G = G} f64 chrono bv s own ≢ panic
  unfolding T4.handle parse_ymdhs
  t4-ne_panic = ground (arith, parse_valid_utc-ne_panic chrono)

  pub t5-ne_panic :
      (start : T)
      → chrono.with_ymd_and_hms (pos 2000) 1 1 0 0 0 ≡ some start
      → T5.handle {F = F} {G = G} chrono bv s own ≢ panic
  unfolding T5.handle
  t5-ne_panic start e =
      let (a, ea, _, _) = pick_string-IsAisText bv 70 7 in
      let (b, eb, _, _) = pick_string-IsAisText bv 112 20 in
      let (c, ec, _, _) = pick_string-IsAisText bv 302 20 in
      let h = pick_eta-ne_panic chrono bv 274 start e in
      rw (ea, eb, ec) (bind-ne_panic (pick_eta chrono bv 274) _ h (λ eta p. cc))

  pub t11-ne_panic : T11.handle {G = G} f64 chrono bv s own ≢ panic
  unfolding T11.handle parse_ymdhs
  t11-ne_panic = ground (arith, parse_valid_utc-ne_panic chrono)

  pub t12-ne_panic : T12.handle {F = F} {T = T} {G = G} bv s own ≢ panic
  unfolding T12.handle
  t12-ne_panic = let (a, ea, _, _) = pick_string-IsAisText bv 72 156 in rw ea (λ e. cc)

  pub t14-ne_panic : T14.handle {F = F} {T = T} {G = G} bv s own ≢ panic
  unfolding T14.handle
  t14-ne_panic = let (a, ea, _, _) = pick_string-IsAisText bv 40 161 in rw ea (λ e. cc)

  pub t21-ne_panic : T21.handle {T = T} {G = G} f64 bv s own ≢ panic
  unfolding T21.handle
  t21-ne_panic =
      let (a, ea, _, _) = pick_string-IsAisText bv 43 20 in
      let (b, eb, _, _) = pick_string-IsAisText bv 272 14 in
      bind-ne_panic (or_not_specified (nav_aid_type (pick_u8 bv 38 5))) _
        (nav_aid_type-ne_panic (pick_u8 bv 38 5)) (λ t. rw (ea, eb) (λ p. cc))

  pub t23-ne_panic : T23.handle {T = T} {G = G} f64 bv s own ≢ panic
  unfolding T23.handle
  t23-ne_panic =
      bind-ne_panic (station_type (pick_u8 bv 110 4)) _ (station_type-ne_panic (pick_u8 bv 110 4))
        λ a.
          bind-ne_panic (txrx_mode (pick_u8 bv 144 2)) _ (txrx_mode-ne_panic (pick_u8 bv 144 2))
            λ b.
              bind-ne_panic (station_interval (pick_u8 bv 146 4)) _
                (station_interval-ne_panic (pick_u8 bv 146 4))
                λ c.
                  bind-ne_panic (quiet_time (pick_u8 bv 150 4)) _
                    (quiet_time-ne_panic (pick_u8 bv 150 4) (omega (arith, pick_u64-lt bv 150 4)))
                    λ d p. cc

  pub t1t2t3-ne_panic : T1t2t3.handle {T = T} {G = G} f64 bv s own ≢ panic
  unfolding T1t2t3.handle
  t1t2t3-ne_panic e = cc

  pub t6-ne_panic : T6.handle {F = F} {T = T} {G = G} bv s own ≢ panic
  unfolding T6.handle
  t6-ne_panic e = cc

  pub t9-ne_panic : T9.handle {T = T} {G = G} f64 bv s own ≢ panic
  unfolding T9.handle
  t9-ne_panic e = cc

  pub t10-ne_panic : T10.handle {F = F} {T = T} {G = G} bv s own ≢ panic
  unfolding T10.handle
  t10-ne_panic e = cc

  pub t13-ne_panic : T13.handle {F = F} {T = T} {G = G} bv s own ≢ panic
  unfolding T13.handle
  t13-ne_panic e = cc

  pub t15-ne_panic : T15.handle {F = F} {T = T} {G = G} bv s own ≢ panic
  unfolding T15.handle
  t15-ne_panic e = cc

  pub t16-ne_panic : T16.handle {F = F} {T = T} {G = G} bv s own ≢ panic
  unfolding T16.handle
  t16-ne_panic e = cc

  pub t17-ne_panic : T17.handle {T = T} {G = G} f64 bv s own ≢ panic
  unfolding T17.handle
  t17-ne_panic e = cc

  pub t18-ne_panic : T18.handle {T = T} {G = G} f64 bv s own ≢ panic
  unfolding T18.handle
  t18-ne_panic e = cc

  pub t19-ne_panic : T19.handle {T = T} {G = G} f64 bv s own ≢ panic
  unfolding T19.handle
  t19-ne_panic e = cc

  pub t20-ne_panic : T20.handle {F = F} {T = T} {G = G} bv s own ≢ panic
  unfolding T20.handle
  t20-ne_panic e = cc

  pub t22-ne_panic : T22.handle {T = T} {G = G} f64 bv s own ≢ panic
  unfolding T22.handle
  t22-ne_panic e = cc

  pub t27-ne_panic : T27.handle {T = T} {G = G} f64 bv s own ≢ panic
  unfolding T27.handle
  t27-ne_panic e = cc
