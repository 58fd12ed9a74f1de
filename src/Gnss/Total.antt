-- ===== src/Gnss/Total.antt =====
-- Where the handler of a GNSS sentence can panic.
use nmea_parser.Common.{refl, ◌≡◌, ◌≢◌, Bool, true, false, some, pos, Outcome, panic, if◌then◌else◌}
use nmea_parser.Text.{Text, codes, eq_text}
use nmea_parser.Text.Laws.{eq_text_iff}
use nmea_parser.Numbers.{F64}
use nmea_parser.Chrono.{Chrono}
use nmea_parser.Parser.Talker.{NavigationSystem}
use nmea_parser.Gnss.Libraries.{Libraries}
use nmea_parser.Gnss.Times.Total.{
  start_of_2000-ne_panic, parse_hhmmss-ne_panic, parse_yymmdd_hhmmss-ne_panic,
  parse_hhmmss_ss-ne_panic, pick_date_with_fields-ne_panic, pick_timezone_with_fields-ne_panic,
}
use nmea_parser.Gnss.Dispatch.{gnss_message}
use nmea_parser.Gnss.Gga
use nmea_parser.Gnss.Rmc
use nmea_parser.Gnss.Gns
use nmea_parser.Gnss.Gsa
use nmea_parser.Gnss.Vtg
use nmea_parser.Gnss.Gll
use nmea_parser.Gnss.Alm
use nmea_parser.Gnss.Dtm
use nmea_parser.Gnss.Mss
use nmea_parser.Gnss.Stn
use nmea_parser.Gnss.Vbw
use nmea_parser.Gnss.Zda
use nmea_parser.Gnss.Dpt
use nmea_parser.Gnss.Dbs
use nmea_parser.Gnss.Mtw
use nmea_parser.Gnss.Vhw
use nmea_parser.Gnss.Hdt
use nmea_parser.Gnss.Mwv
use nmea_parser.Gnss.Rmc.{variation_of}
use nmea_parser.Gnss.Gsa.{prn_numbers_from}
use nmea_parser.Gnss.Mwv.{scaled, speed_knots, speed_kmh}
use nmea_parser.Gnss.Steps.{steps}

-- A chain of tests, up to the branch that panics.
branch :
    {A : Type 0} {P : Type 0} (b : Bool) {x y : Outcome A}
    → (x ≡ panic → P)
    → (y ≡ panic → P)
    → (if b then x else y) ≡ panic
    → P
branch true f g e = f e
branch false f g e = g e

only_branch :
    {A : Type 0} {P : Type 0} (b : Bool) {x y : Outcome A}
    → (b ≡ true → x ≡ panic → P)
    → (y ≡ panic → P)
    → (if b then x else y) ≡ panic
    → P
only_branch true f g e = f refl e
only_branch false f g e = g e

module _ {F S T Z : Type 0} (f64 : F64 F) (chrono : Chrono T) (libs : Libraries S Z) (start : T)
    (clock : chrono.with_ymd_and_hms (pos 2000) 1 1 0 0 0 ≡ some start) (now : T)
    (clock' : chrono.with_ymd_and_hms (pos 2020) 1 1 0 0 0 ≡ some now) (s : Text)
    (n : NavigationSystem) where
  gga-ne_panic : Gga.handle {F = F} {S = S} {Z = Z} f64 chrono s n ≢ panic
  unfolding Gga.handle
  gga-ne_panic =
      search (steps, parse_hhmmss-ne_panic, start_of_2000-ne_panic chrono start clock) depth 40 fits
        2000

  gns-ne_panic : Gns.handle {F = F} {S = S} {Z = Z} f64 chrono s n ≢ panic
  unfolding Gns.handle
  gns-ne_panic =
      search (steps, parse_hhmmss-ne_panic, start_of_2000-ne_panic chrono start clock) depth 40 fits
        2000

  gll-ne_panic : Gll.handle {F = F} {S = S} {Z = Z} f64 chrono s n ≢ panic
  unfolding Gll.handle
  gll-ne_panic =
      search (steps, parse_hhmmss-ne_panic, start_of_2000-ne_panic chrono start clock) depth 40 fits
        2000

  rmc-ne_panic : Rmc.handle {F = F} {S = S} {Z = Z} f64 chrono s n ≢ panic
  unfolding Rmc.handle
  rmc-ne_panic = search (steps, parse_yymmdd_hhmmss-ne_panic chrono now clock') depth 40 fits 2000

  zda-ne_panic : Zda.handle {F = F} {S = S} {Z = Z} f64 chrono libs false s n ≢ panic
  unfolding Zda.handle
  zda-ne_panic =
      search
        (
          steps, pick_date_with_fields-ne_panic, parse_hhmmss_ss-ne_panic,
          pick_timezone_with_fields-ne_panic,
        )
        depth 40 fits 2000

  gsa-ne_panic : Gsa.handle {F = F} {S = S} {T = T} {Z = Z} f64 s n ≢ panic
  unfolding Gsa.handle
  gsa-ne_panic = search steps depth 40 fits 2000

  vtg-ne_panic : Vtg.handle {F = F} {S = S} {T = T} {Z = Z} f64 s n ≢ panic
  unfolding Vtg.handle
  vtg-ne_panic = search steps depth 40 fits 2000

  alm-ne_panic : Alm.handle {F = F} {S = S} {T = T} {Z = Z} libs s n ≢ panic
  unfolding Alm.handle
  alm-ne_panic = search steps depth 40 fits 2000

  dtm-ne_panic : Dtm.handle {F = F} {S = S} {T = T} {Z = Z} f64 s n ≢ panic
  unfolding Dtm.handle
  dtm-ne_panic = search steps depth 40 fits 2000

  mss-ne_panic : Mss.handle {F = F} {S = S} {T = T} {Z = Z} f64 s n ≢ panic
  unfolding Mss.handle
  mss-ne_panic = search steps depth 40 fits 2000

  stn-ne_panic : Stn.handle {F = F} {S = S} {T = T} {Z = Z} s n ≢ panic
  unfolding Stn.handle
  stn-ne_panic = search steps depth 40 fits 2000

  vbw-ne_panic : Vbw.handle {F = F} {S = S} {T = T} {Z = Z} f64 s n ≢ panic
  unfolding Vbw.handle
  vbw-ne_panic = search steps depth 40 fits 2000

  dpt-ne_panic : Dpt.handle {F = F} {S = S} {T = T} {Z = Z} f64 s ≢ panic
  unfolding Dpt.handle
  dpt-ne_panic = search steps depth 40 fits 2000

  dbs-ne_panic : Dbs.handle {F = F} {S = S} {T = T} {Z = Z} f64 s ≢ panic
  unfolding Dbs.handle
  dbs-ne_panic = search steps depth 40 fits 2000

  mtw-ne_panic : Mtw.handle {F = F} {S = S} {T = T} {Z = Z} f64 s ≢ panic
  unfolding Mtw.handle
  mtw-ne_panic = search steps depth 40 fits 2000

  vhw-ne_panic : Vhw.handle {F = F} {S = S} {T = T} {Z = Z} f64 s ≢ panic
  unfolding Vhw.handle
  vhw-ne_panic = search steps depth 40 fits 2000

  hdt-ne_panic : Hdt.handle {F = F} {S = S} {T = T} {Z = Z} f64 s ≢ panic
  unfolding Hdt.handle
  hdt-ne_panic = search steps depth 40 fits 2000

  mwv-ne_panic : Mwv.handle {F = F} {S = S} {T = T} {Z = Z} f64 s ≢ panic
  unfolding Mwv.handle
  mwv-ne_panic = search steps depth 40 fits 2000

  zda_checks :
      (checks : Bool)
      → Zda.handle {F = F} {S = S} {Z = Z} f64 chrono libs checks s n ≡ panic
      → checks ≡ true
  zda_checks true e = refl
  zda_checks false e = absurd (zda-ne_panic e)

  -- Where chrono gives the first seconds of 2000 and of 2020, the handler of a GNSS sentence without
  -- a store panics only for `$ZDA`, and there only in a build with overflow checks.
  pub gnss_message_panics :
      (checks : Bool) (t : Text)
      → gnss_message {F = F} {S = S} {Z = Z} f64 chrono libs checks t s n ≡ panic
      → (t ≡ codes "$ZDA") × (checks ≡ true)
  unfolding gnss_message
  gnss_message_panics checks t =
      branch (eq_text t (codes "$GGA")) (λ e. absurd (gga-ne_panic e))
        (branch (eq_text t (codes "$RMC")) (λ e. absurd (rmc-ne_panic e))
          (branch (eq_text t (codes "$GNS")) (λ e. absurd (gns-ne_panic e))
            (branch (eq_text t (codes "$GSA")) (λ e. absurd (gsa-ne_panic e))
              (branch (eq_text t (codes "$VTG")) (λ e. absurd (vtg-ne_panic e))
                (branch (eq_text t (codes "$GLL")) (λ e. absurd (gll-ne_panic e))
                  (branch (eq_text t (codes "$ALM")) (λ e. absurd (alm-ne_panic e))
                    (branch (eq_text t (codes "$DTM")) (λ e. absurd (dtm-ne_panic e))
                      (branch (eq_text t (codes "$MSS")) (λ e. absurd (mss-ne_panic e))
                        (branch (eq_text t (codes "$STN")) (λ e. absurd (stn-ne_panic e))
                          (branch (eq_text t (codes "$VBW")) (λ e. absurd (vbw-ne_panic e))
                            (only_branch (eq_text t (codes "$ZDA"))
                              (λ q e. ((eq_text_iff t (codes "$ZDA")).0 q, zda_checks checks e))
                              (branch (eq_text t (codes "$DPT")) (λ e. absurd (dpt-ne_panic e))
                                (branch (eq_text t (codes "$DBS")) (λ e. absurd (dbs-ne_panic e))
                                  (branch (eq_text t (codes "$MTW")) (λ e. absurd (mtw-ne_panic e))
                                    (branch (eq_text t (codes "$VHW"))
                                      (λ e. absurd (vhw-ne_panic e))
                                      (branch (eq_text t (codes "$HDT"))
                                        (λ e. absurd (hdt-ne_panic e))
                                        (branch (eq_text t (codes "$MWV"))
                                          (λ e. absurd (mwv-ne_panic e)) (λ e. cc))))))))))))))))))
