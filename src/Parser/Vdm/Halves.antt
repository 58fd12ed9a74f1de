-- ===== src/Parser/Vdm/Halves.antt =====
-- The keys of the two halves of a message.
use nmea_parser.Common.{◌<◌, ℕ, ◌^◌, ◌<◌, ◌≡◌, refl, ap, ◌∙◌, Bool, true, false, ◌∷◌, ◌++◌, arith}
use nmea_parser.Text.{Text, Lacks, codes, show_u64}
use nmea_parser.Text.Laws.{append-Lacks-injective}
use nmea_parser.Text.Decimal.{show_u64-injective, show_u64-Lacks}
use nmea_parser.Parser.Vdm.{make_fragment_key}

-- The sentence type of a message of the own vessel or of another one.
abbrev pub vdm_type : Bool → Text
vdm_type true = codes "!VDO"
vdm_type false = codes "!VDM"

-- The number of the first and of the second half.
abbrev pub number : Bool → ℕ
number false = 1
number true = 2

abbrev pub half_key : Bool → ℕ → Text → Bool → Text
half_key own i r b = make_fragment_key (vdm_type own) i 2 (number b) r

pub vdm_type-Lacks : (own : Bool) → Lacks b',' (vdm_type own)
vdm_type-Lacks true = (refl, (refl, (refl, (refl, tt))))
vdm_type-Lacks false = (refl, (refl, (refl, (refl, tt))))

number-injective : (b c : Bool) → number b ≡ number c → b ≡ c
number-injective true true e = refl
number-injective true false e = absurd (omega arith)
number-injective false true e = absurd (omega arith)
number-injective false false e = refl

pub number-small : (b : Bool) → number b < 10 ^ 20
number-small true = omega arith
number-small false = omega arith

pub digits-Lacks : (n : ℕ) → Lacks b',' (show_u64 n)
digits-Lacks n = show_u64-Lacks n b',' (omega arith)

-- Where two keys agree, they are the same half, and the other halves agree too.
pub half_key-injective :
    (own own' : Bool) (i i' : ℕ) (r r' : Text) (b b' : Bool)
    → half_key own i r b ≡ half_key own' i' r' b'
    → (b ≡ b') × ((c : Bool) → half_key own i r c ≡ half_key own' i' r' c)
unfolding make_fragment_key
half_key-injective own own' i i' r r' b b' e =
    let (et, e1) =
      append-Lacks-injective b',' (vdm_type own) (vdm_type own') _ _ (vdm_type-Lacks own)
        (vdm_type-Lacks own') e in
    let (ec, e2) =
      append-Lacks-injective b',' (show_u64 2) (show_u64 2) _ _ (digits-Lacks 2) (digits-Lacks 2)
        e1 in
    let (en, e3) =
      append-Lacks-injective b',' (show_u64 (number b)) (show_u64 (number b')) _ _
        (digits-Lacks (number b)) (digits-Lacks (number b')) e2 in
    (
      number-injective b b'
          (show_u64-injective (number b) (number b') (number-small b) (number-small b') en),
      λ c.
          ap
            (λ t.
              t
              ++ (b','
                  ∷ (show_u64 2
                      ++ (b',' ∷ (show_u64 (number c) ++ (b',' ∷ (show_u64 i ++ (b',' ∷ r))))))))
            et
          ∙ ap
              (λ t.
                vdm_type own'
                ++ (b',' ∷ (show_u64 2 ++ (b',' ∷ (show_u64 (number c) ++ (b',' ∷ t))))))
              e3,
    )
