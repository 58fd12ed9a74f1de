-- ===== src/Parser/Vdm/Keys.antt =====
-- The keys of the fragment store tell the messages apart.
use nmea_parser.Common.{ℕ, ◌^◌, ◌<◌, ◌≡◌, ◌≢◌, ◌∷◌, ◌++◌, arith}
use nmea_parser.Text.{Text, Lacks, show_u64}
use nmea_parser.Text.Laws.{append-Lacks-injective}
use nmea_parser.Text.Decimal.{show_u64-injective, show_u64-Lacks}
use nmea_parser.Parser.Vdm.{make_fragment_key}

pub number_field :
    (a b : ℕ) (x y : Text)
    → a < 10 ^ 20
    → b < 10 ^ 20
    → show_u64 a ++ (b',' ∷ x) ≡ show_u64 b ++ (b',' ∷ y)
    → (a ≡ b) × (x ≡ y)
number_field a b x y ha hb e =
    let (p, q) =
      append-Lacks-injective b',' (show_u64 a) (show_u64 b) x y
        (show_u64-Lacks a b',' (omega arith)) (show_u64-Lacks b b',' (omega arith)) e in
    (show_u64-injective a b ha hb p, q)

-- Equal keys have equal parts, for sentence types with no comma and numbers below 10 ^ 20.
pub make_fragment_key-injective :
    (s s' : Text) (i i' c c' n n' : ℕ) (r r' : Text)
    → Lacks b',' s
    → Lacks b',' s'
    → (i < 10 ^ 20) × (i' < 10 ^ 20)
    → (c < 10 ^ 20) × (c' < 10 ^ 20)
    → (n < 10 ^ 20) × (n' < 10 ^ 20)
    → make_fragment_key s i c n r ≡ make_fragment_key s' i' c' n' r'
    → (s ≡ s') × (i ≡ i') × (c ≡ c') × (n ≡ n') × (r ≡ r')
unfolding make_fragment_key
make_fragment_key-injective s s' i i' c c' n n' r r' hs hs' hi hc hn e =
    let (es, e1) = append-Lacks-injective b',' s s' _ _ hs hs' e in
    let (ec, e2) = number_field c c' _ _ hc.0 hc.1 e1 in
    let (en, e3) = number_field n n' _ _ hn.0 hn.1 e2 in
    let (ei, er) = number_field i i' _ _ hi.0 hi.1 e3 in (es, ei, ec, en, er)

-- The keys of the two halves of one message differ.
pub half_keys-ne :
    (s : Text) (i c : ℕ) (r : Text)
    → Lacks b',' s
    → i < 10 ^ 20
    → c < 10 ^ 20
    → make_fragment_key s i c 1 r ≢ make_fragment_key s i c 2 r
half_keys-ne s i c r hs hi hc e =
    let parts =
      make_fragment_key-injective s s i i c c 1 2 r r hs hs (hi, hi) (hc, hc) (omega arith) e in
    absurd (omega (arith, parts.3))
