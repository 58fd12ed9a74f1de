-- ===== src/Gnss/Gsv/Apart.antt =====
-- What a GSV sentence leaves in the store: every entry but those of its own message.
use nmea_parser.Common.{
  Outcome-cases, ℕ, zero, suc, ◌^◌, ◌<◌, ◌≡◌, ◌≢◌, refl, ◌∙◌, Bool, Option, none, some, ok, err,
  panic, ◌==◌, Bool-cases, inl, inr, Outcome, arith, List, bind-ok, Option-cases, get_elem?,
}
use nmea_parser.Text.{Text, split, Lacks, parse_unsigned}
use nmea_parser.Text.Laws.{append-Lacks-injective}
use nmea_parser.Text.Decimal.{parse_unsigned-lt}
use nmea_parser.Store.{NmeaParser, push_string, pull_string}
use nmea_parser.Parser.Talker.{NavigationSystem}
use nmea_parser.Parser.Vdm.Keys.{number_field}
use nmea_parser.Parser.Vdm.Fragments.{fragment, fragment-pull_other, fragment-push_other}
use nmea_parser.Gnss.Fields.{parsed_field, pick_number_field}
use nmea_parser.Gnss.Gsv.{
  or_zero, make_gsv_key, first_field, collect, count_found, answer, receive, rounds, numbers,
  handle,
}

module _ {S T : Type 0} (parse_f32 : Text → Option S) (nav_system : NavigationSystem)
    (key : ℕ → Text) (t : Text) (apart : (num : ℕ) → key num ≢ t) where
  fragment-collect :
      (store : NmeaParser T) (k n : ℕ)
      → fragment (collect parse_f32 nav_system store key k n).0 t ≡ fragment store t
  unfolding collect
  fragment-collect store k zero = refl
  fragment-collect store k (suc n) =
      fragment-collect (pull_string store (key k)).0 (suc k) n
      ∙ fragment-pull_other store (key k) t (apart k)

  fragment-answer :
      (F Z : Type 0) (store : NmeaParser T) (count : ℕ) (n : Outcome ℕ)
      → fragment (answer parse_f32 {F = F} {Z = Z} nav_system store key count n).0 t
        ≡ fragment store t
  unfolding answer
  fragment-answer F Z store count (ok n) = elim (Bool-cases (count_found store key 1 n == count)) [
    | inl p ↦ rw p (fragment-collect store 1 n)
    | inr p ↦ rw p
  ]
  fragment-answer F Z store count (err e) = refl
  fragment-answer F Z store count panic = refl

module _ {S T : Type 0} (F Z : Type 0) (parse_f32 : Text → Option S) where
  -- An entry whose key is not one of the sentence's message stays as it is.
  pub fragment-handle_apart :
      (checks : Bool) (sentence : Text) (nav_system : NavigationSystem) (store : NmeaParser T)
      (t : Text)
      → ((count num : ℕ)
          → numbers (split b',' sentence) ≡ ok (count, num)
          → (k : ℕ) → make_gsv_key (first_field (split b',' sentence)) count k ≢ t)
      → fragment (handle parse_f32 {F = F} {Z = Z} checks sentence nav_system store).0 t
        ≡ fragment store t
  unfolding handle receive
  fragment-handle_apart checks sentence nav_system store t apart =
      let fields = split b',' sentence in
      elim (Outcome-cases (numbers fields)) [
        | inl ((count, num), e) ↦
            let key = make_gsv_key (first_field fields) count in
            rw (e, handle)
              (fragment-answer parse_f32 nav_system key t (apart count num e) F Z
                  (push_string store (key num) sentence) count (rounds checks count)
                ∙ fragment-push_other store (key num) sentence t (apart count num e num))
        | inr (inl (e, p)) ↦ rw (p, handle)
        | inr (inr p) ↦ rw (p, handle)
      ]

parsed_field-lt :
    (t : Text) (n : ℕ) → parsed_field (parse_unsigned (2 ^ 32)) t ≡ ok (some n) → n < 2 ^ 32
parsed_field-lt t n e = parse_unsigned-lt (2 ^ 32) t n (ground arith)

picked-lt :
    (fields : List Text) (k : ℕ) (o : Option ℕ)
    → pick_number_field (parse_unsigned (2 ^ 32)) fields k ≡ ok o
    → or_zero o < 2 ^ 32
unfolding pick_number_field
picked-lt fields k none e = omega arith
picked-lt fields k (some n) e = elim (Option-cases (get_elem? fields k)) [
  | inl p ↦ absurd (ground (arith, p))
  | inr (t, p) ↦ parsed_field-lt t n (ground (arith, p))
]

-- The number of sentences is a u32.
pub numbers-lt :
    (fields : List Text) (count num : ℕ) → numbers fields ≡ ok (count, num) → count < 2 ^ 32
unfolding numbers
numbers-lt fields count num e =
    let (o, eo, e1) = bind-ok (pick_number_field (parse_unsigned (2 ^ 32)) fields 1) _ e in
    let (o', eo', e2) = bind-ok (pick_number_field (parse_unsigned (2 ^ 32)) fields 2) _ e1 in
    let same : or_zero o ≡ count = ground arith in omega (arith, same, picked-lt fields 1 o eo)

-- Messages of different types or counts have different keys.
pub gsv_key-ne :
    (s s' : Text) (c c' n n' : ℕ)
    → Lacks b',' s
    → Lacks b',' s'
    → c < 2 ^ 32
    → c' < 2 ^ 32
    → (s ≡ s' → c ≢ c')
    → make_gsv_key s c n ≢ make_gsv_key s' c' n'
unfolding make_gsv_key
gsv_key-ne s s' c c' n n' plain plain' small small' other e =
    let (es, e1) = append-Lacks-injective b',' s s' _ _ plain plain' e in
    let (ec, e2) = number_field c c' _ _ (omega (arith, small)) (omega (arith, small')) e1 in
    other es ec
