-- ===== src/Runs/Bytes.antt =====
-- The theorems on sentences, keys, payloads and bit fields at concrete inputs.
use nmea_parser.Common.{
  ℕ, ◌*◌, ◌≡◌, refl, ◌↔◌, inl, inr, Bool, true, false, none, some, [], ◌∷◌, ◌++◌, map, ◌==◌,
  Bool-cases, if◌then◌else◌, arith, negsuc, length, ok, err, panic, corrupted_sentence,
}
use nmea_parser.Text.{Text, Lacks, codes}
use nmea_parser.Bits.{Bits, pick_u64, pick_i64, pick_string, parse_payload, trim_end}
use nmea_parser.Bits.Pick.{to_bits, pick_u64-to_bits}
use nmea_parser.Bits.Signed.{complement, Fits, pick_i64-to_bits, pick_i64-Fits}
use nmea_parser.Bits.Armor.{
  armor, groups, Armored, parse_payload-armor, parse_payload_unchecked, parse_payload_checked,
}
use nmea_parser.Bits.Chars.{encode_text, pick_string-encode_text}
use nmea_parser.Store.{NmeaParser, lookup, new}
use nmea_parser.Parser.Frame.{checksum, show_hex}
use nmea_parser.Parser.Dispatch.{parse_sentence}
use nmea_parser.Parser.Dispatch.Sealed.{parse_sentence-sealed, parse_sentence-changed}
use nmea_parser.Parser.Vdm.{to_some, assemble}
use nmea_parser.Parser.Vdm.Keys.{make_fragment_key-injective}
use nmea_parser.Parser.Vdm.Fragments.{fragment, half, assemble-either_order}
use nmea_parser.Runs.Toys.{floats, libraries, Time, calendar}

abbrev pub lacks_test : ℕ → Text → Bool
lacks_test d [] = true
lacks_test d (c ∷ t) = if c == d then false else lacks_test d t

pub by_test : (d : ℕ) (t : Text) → lacks_test d t ≡ true → Lacks d t
by_test d [] e = tt
by_test d (c ∷ t) e = elim (Bool-cases (c == d)) [
  | inl same ↦ absurd (cc (same, e))
  | inr other ↦ (other, by_test d t (cc (other, e)))
]

abbrev sentence : Text
sentence = codes "!AIVDM,1,1,,A,15RTgt0PAso;90TKcjM8h6g208CQ,0"

unfoldable pub empty_store : NmeaParser Time
unfolding new
empty_store = new

parse_sentence-sealed_example :
    parse_sentence floats calendar libraries true empty_store
      (codes "\\s:1\\" ++ (sentence ++ (b'*' ∷ (show_hex (checksum sentence) ++ (13 ∷ 10 ∷ [])))))
    ≡ parse_sentence floats calendar libraries true empty_store sentence
parse_sentence-sealed_example =
    parse_sentence-sealed floats calendar libraries true empty_store (codes "\\s:1\\") sentence
      (13 ∷ 10 ∷ []) (by_test b'$' (codes "\\s:1\\") refl) (by_test b'!' (codes "\\s:1\\") refl)
      refl (by_test b'*' (13 ∷ 10 ∷ []) refl) (by_test b'*' sentence refl)

parse_sentence-changed_example :
    parse_sentence floats calendar libraries true empty_store (
      (b'!' ∷ (codes "AI" ++ (b'W' ∷ codes "DM,1,1")))
      ++ (b'*' ∷ (show_hex (checksum (b'!' ∷ (codes "AI" ++ (b'V' ∷ codes "DM,1,1")))) ++ [])))
    ≡ (empty_store, err corrupted_sentence)
parse_sentence-changed_example =
    parse_sentence-changed floats calendar libraries true empty_store b'!' (codes "AI")
      (codes "DM,1,1") [] b'V' b'W' refl tt (λ e. omega (arith, e))

assemble-either_order_example :
    let first =
      assemble true empty_store (codes "!VDM") (half 7 (some (codes "A")) 1 (codes "55")) in
    let then_second =
      assemble true first.0 (codes "!VDM") (half 7 (some (codes "A")) 2 (codes "88")) in
    let second =
      assemble true empty_store (codes "!VDM") (half 7 (some (codes "A")) 2 (codes "88")) in
    let then_first =
      assemble true second.0 (codes "!VDM") (half 7 (some (codes "A")) 1 (codes "55")) in
    (first.1 ≡ ok none)
    × (then_second.1 ≡ to_some (parse_payload true (codes "5588")))
    × ((j : Text) → fragment then_second.0 j ≡ fragment empty_store j)
    × (then_second.0.saved_vsds ≡ empty_store.saved_vsds)
    × (second.1 ≡ ok none)
    × (then_first.1 ≡ to_some (parse_payload true (codes "5588")))
    × ((j : Text) → fragment then_first.0 j ≡ fragment empty_store j)
    × (then_first.0.saved_vsds ≡ empty_store.saved_vsds)
unfolding empty_store lookup
assemble-either_order_example =
    assemble-either_order true empty_store (codes "!VDM") 7 (some (codes "A")) (codes "55")
      (codes "88") refl refl

make_fragment_key-injective_example :
    (codes "!VDM" ≡ codes "!VDM")
    × ◌≡◌ {A = ℕ} 7 7
    × ◌≡◌ {A = ℕ} 2 2
    × ◌≡◌ {A = ℕ} 1 1
    × (codes "A" ≡ codes "A")
make_fragment_key-injective_example =
    make_fragment_key-injective (codes "!VDM") (codes "!VDM") 7 7 2 2 1 1 (codes "A") (codes "A")
      (by_test b',' (codes "!VDM") refl) (by_test b',' (codes "!VDM") refl)
      (omega arith, omega arith) (omega arith, omega arith) (omega arith, omega arith) refl

abbrev some_bits : Bits
some_bits = true ∷ false ∷ true ∷ true ∷ []

pick_u64-to_bits_example :
    pick_u64 (some_bits ++ (to_bits 6 37 ++ some_bits)) (length some_bits) 6 ≡ 37
pick_u64-to_bits_example = pick_u64-to_bits some_bits some_bits 6 37 (omega arith) (omega arith)

pick_i64-to_bits_example :
    pick_i64 (some_bits ++ (to_bits 6 (complement 6 (negsuc 4)) ++ some_bits)) (length some_bits) 6
    ≡ negsuc 4
pick_i64-to_bits_example =
    pick_i64-to_bits some_bits some_bits 6 (negsuc 4) (omega arith) (omega arith)
      (omega arith, omega arith)

pick_i64-Fits_example : Fits 3 (pick_i64 some_bits 0 3)
pick_i64-Fits_example = pick_i64-Fits some_bits 0 3 (omega arith) (omega arith)

pick_string-encode_text_example :
    pick_string (some_bits ++ (encode_text 5 (codes "AB 1") ++ some_bits)) (length some_bits) 5
    ≡ ok (codes "AB 1")
unfolding trim_end
pick_string-encode_text_example =
    pick_string-encode_text 5 (codes "AB 1") some_bits some_bits (omega arith) (ground arith) refl

parse_payload-armor_example :
    parse_payload true (map armor (5 ∷ 41 ∷ 63 ∷ [])) ≡ ok (groups (5 ∷ 41 ∷ 63 ∷ []))
parse_payload-armor_example =
    parse_payload-armor true (5 ∷ 41 ∷ 63 ∷ []) (omega arith, (omega arith, (omega arith, tt)))

parse_payload_unchecked_example :
    (bv : Bits) × (parse_payload false (codes "5!w") ≡ ok bv)
    × (length bv ≡ 6 * length (codes "5!w"))
parse_payload_unchecked_example = parse_payload_unchecked (codes "5!w")

parse_payload_checked_example :
    (parse_payload true (codes "5!w") ≡ panic) ↔ (¬ Armored (codes "5!w"))
parse_payload_checked_example = parse_payload_checked (codes "5!w")
