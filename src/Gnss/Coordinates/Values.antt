-- ===== src/Gnss/Coordinates/Values.antt =====
-- Latitudes and longitudes as text: what is accepted, and the value that it has.
use nmea_parser.Common.{
  ℕ, suc, ◌+◌, ◌≡◌, ◌≢◌, refl, ◌⊎◌, inl, inr, none, some, [], ◌∷◌, ◌++◌, take, drop, Bool-cases, ok,
  err, panic, invalid_sentence, arith,
}
use nmea_parser.Text.{Text, codes}
use nmea_parser.Text.Bytes.{bytes}
use nmea_parser.Text.Slices.{get_range-front, get_range-behind}
use nmea_parser.Numbers.{F64}
use nmea_parser.Gnss.Coordinates.{
  count_digits, is_degrees, parse_or_zero, parse_degrees, signed_by, parse_latitude_ddmm_mmm,
  parse_longitude_dddmm_mmm,
}
use nmea_parser.Gnss.Coordinates.Digits.{
  IsDegrees, is_degrees-IsDegrees, digit_prefix, split_at-digits, split_at-minutes,
}

no-IsDegrees : (s : Text) (n : ℕ) → s ≡ [] → ¬ IsDegrees (suc n) s
no-IsDegrees [] n e h = h
no-IsDegrees (c ∷ t) n e h = cc

module _ {F : Type 0} (f64 : F64 F) where
  open f64 use {literal, add, div}

  -- Degrees of `w` digits, then minutes of `m` digits with the digits behind the point.
  abbrev pub degrees_value : ℕ → ℕ → Text → F
  degrees_value w m s =
      let degrees = parse_or_zero f64 (take w s) in
      let fraction = digit_prefix (drop (suc m) (drop w s)) in
      let minutes = parse_or_zero f64 (take m (drop w s) ++ (b'.' ∷ fraction)) in
      add degrees (div minutes (literal 60 0))

  parse_degrees-IsDegrees :
      (w m n : ℕ) (s : Text)
      → n ≡ w + m
      → IsDegrees n s
      → parse_degrees f64 w n s ≡ ok (degrees_value w m s)
  unfolding parse_degrees
  parse_degrees-IsDegrees w m n s e h =
      let (degrees, k, d) = split_at-digits w m n s e h in
      let (b, minutes) = split_at-minutes m (drop w s) k in
      rw (
        parse_degrees,
        get_range-front s w (take w s) (drop w s) degrees,
        d,
        get_range-behind s w (suc n) (suc m) (count_digits (drop (suc m) (bytes (drop w s))))
            (take w s) (drop w s) _ b (omega (arith, e)) degrees minutes,
      )

  -- A latitude is absent where its text is empty; it is an error where the text is not four digits
  -- and a point with a digit behind it; else it is the two digits of its degrees and a sixtieth of
  -- its minutes, as far as its digits go, and negative in the south only.
  pub parse_latitude_ddmm_mmm-value :
      (s hemisphere : Text)
      → ((s ≡ []) × (parse_latitude_ddmm_mmm f64 s hemisphere ≡ ok none))
        ⊎ (IsDegrees 4 s
            × (parse_latitude_ddmm_mmm f64 s hemisphere
                ≡ ok (some (signed_by f64 (codes "S") hemisphere (degrees_value 2 2 s)))))
        ⊎ ((s ≢ [])
            × (¬ IsDegrees 4 s)
            × (parse_latitude_ddmm_mmm f64 s hemisphere ≡ err invalid_sentence))
  unfolding parse_latitude_ddmm_mmm
  parse_latitude_ddmm_mmm-value [] hemisphere = inl (refl, refl)
  parse_latitude_ddmm_mmm-value (c ∷ t) hemisphere =
      elim (Bool-cases (is_degrees 4 (bytes (c ∷ t)))) [
        | inl p ↦
            let h = (is_degrees-IsDegrees 4 (c ∷ t)).0 p in
            inr (inl (h, rw (p, parse_degrees-IsDegrees 2 2 4 (c ∷ t) refl h)))
        | inr p ↦ inr (inr ((λ e. cc), (λ h. cc (p, (is_degrees-IsDegrees 4 (c ∷ t)).1 h)), rw p))
      ]

  -- A longitude is absent where its text is empty; it is an error where the text is not five digits
  -- and a point with a digit behind it; else it is the three digits of its degrees and a sixtieth
  -- of its minutes, as far as its digits go, and negative in the west only.
  pub parse_longitude_dddmm_mmm-value :
      (s hemisphere : Text)
      → ((s ≡ []) × (parse_longitude_dddmm_mmm f64 s hemisphere ≡ ok none))
        ⊎ (IsDegrees 5 s
            × (parse_longitude_dddmm_mmm f64 s hemisphere
                ≡ ok (some (signed_by f64 (codes "W") hemisphere (degrees_value 3 2 s)))))
        ⊎ ((s ≢ [])
            × (¬ IsDegrees 5 s)
            × (parse_longitude_dddmm_mmm f64 s hemisphere ≡ err invalid_sentence))
  unfolding parse_longitude_dddmm_mmm
  parse_longitude_dddmm_mmm-value [] hemisphere = inl (refl, refl)
  parse_longitude_dddmm_mmm-value (c ∷ t) hemisphere =
      elim (Bool-cases (is_degrees 5 (bytes (c ∷ t)))) [
        | inl p ↦
            let h = (is_degrees-IsDegrees 5 (c ∷ t)).0 p in
            inr (inl (h, rw (p, parse_degrees-IsDegrees 3 2 5 (c ∷ t) refl h)))
        | inr p ↦ inr (inr ((λ e. cc), (λ h. cc (p, (is_degrees-IsDegrees 5 (c ∷ t)).1 h)), rw p))
      ]

  pub latitude-ne_panic : (s hemisphere : Text) → parse_latitude_ddmm_mmm f64 s hemisphere ≢ panic
  latitude-ne_panic s hemisphere e = elim (parse_latitude_ddmm_mmm-value s hemisphere) [
    | inl p ↦ cc (p.1, e)
    | inr (inl p) ↦ cc (p.1, e)
    | inr (inr p) ↦ cc (p.2, e)
  ]

  pub longitude-ne_panic :
      (s hemisphere : Text) → parse_longitude_dddmm_mmm f64 s hemisphere ≢ panic
  longitude-ne_panic s hemisphere e = elim (parse_longitude_dddmm_mmm-value s hemisphere) [
    | inl p ↦ cc (p.1, e)
    | inr (inl p) ↦ cc (p.1, e)
    | inr (inr p) ↦ cc (p.2, e)
  ]

  pub latitude-IsDegrees :
      (s hemisphere : Text)
      → IsDegrees 4 s
      → parse_latitude_ddmm_mmm f64 s hemisphere
        ≡ ok (some (signed_by f64 (codes "S") hemisphere (degrees_value 2 2 s)))
  latitude-IsDegrees s hemisphere h = elim (parse_latitude_ddmm_mmm-value s hemisphere) [
    | inl p ↦ absurd (no-IsDegrees s 3 p.0 h)
    | inr (inl p) ↦ p.1
    | inr (inr p) ↦ absurd (p.1 h)
  ]

  pub longitude-IsDegrees :
      (s hemisphere : Text)
      → IsDegrees 5 s
      → parse_longitude_dddmm_mmm f64 s hemisphere
        ≡ ok (some (signed_by f64 (codes "W") hemisphere (degrees_value 3 2 s)))
  longitude-IsDegrees s hemisphere h = elim (parse_longitude_dddmm_mmm-value s hemisphere) [
    | inl p ↦ absurd (no-IsDegrees s 4 p.0 h)
    | inr (inl p) ↦ p.1
    | inr (inr p) ↦ absurd (p.1 h)
  ]
