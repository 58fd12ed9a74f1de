-- ===== src/Bits/Layout.antt =====
-- A message as its fields, each a width and a value, and the field at a place.
pub mod Texts
use nmea_parser.Common.{
  ℕ, ◌+◌, ◌^◌, ◌≤◌, ◌<◌, ◌≡◌, refl, sym, ap, ◌∙◌, List, [], ◌∷◌, ◌++◌, arith, length, length-append,
  append_assoc, ℤ, zero, suc, some, get_elem?, take, drop,
}
use nmea_parser.Bits.{Bits, pick_u64, pick_i64}
use nmea_parser.Bits.Pick.{to_bits, length-to_bits, pick_u64-to_bits}
use nmea_parser.Bits.Signed.{complement, Fits, pick_i64-to_bits}

abbrev pub Fields : Type 0
Fields = List (ℕ × ℕ)

abbrev pub encode : Fields → Bits
encode [] = []
encode ((width, value) ∷ fields) = to_bits width value ++ encode fields

abbrev pub total_width : Fields → ℕ
total_width [] = 0
total_width ((width, value) ∷ fields) = width + total_width fields

pub length-encode : (fields : Fields) → length (encode fields) ≡ total_width fields
length-encode [] = refl
length-encode ((width, value) ∷ fields) = omega (
  arith,
  length-append (to_bits width value) (encode fields),
  length-to_bits width value,
  length-encode fields,
)

pub encode-append : (a b : Fields) → encode (a ++ b) ≡ encode a ++ encode b
encode-append [] b = refl
encode-append ((width, value) ∷ a) b =
    ap (λ (bs : Bits). to_bits width value ++ bs) (encode-append a b)
    ∙ sym (append_assoc (to_bits width value) (encode a) (encode b))

-- The number in the field behind `before`.
pub pick_field :
    (before after : Fields) (width value : ℕ)
    → width ≤ 64
    → value < 2 ^ width
    → pick_u64 (encode (before ++ ((width, value) ∷ after))) (total_width before) width ≡ value
pick_field before after width value h k =
    rw (encode-append before ((width, value) ∷ after), ← length-encode before)
      (pick_u64-to_bits (encode before) (encode after) width value h k)

-- The integer in the field behind `before`.
pub pick_signed_field :
    (before after : Fields) (width : ℕ) (value : ℤ)
    → 1 ≤ width
    → width ≤ 63
    → Fits width value
    → pick_i64
        (encode (before ++ ((width, complement width value) ∷ after)))
        (total_width before)
        width
      ≡ value
pick_signed_field before after width value h k f =
    rw (encode-append before ((width, complement width value) ∷ after), ← length-encode before)
      (pick_i64-to_bits (encode before) (encode after) width value h k f)

split_nth :
    (fields : Fields) (k width value : ℕ)
    → get_elem? fields k ≡ some (width, value)
    → fields ≡ take k fields ++ ((width, value) ∷ drop (suc k) fields)
split_nth [] k width value e = cc
split_nth ((w, v) ∷ fields) zero width value e = cc
split_nth ((w, v) ∷ fields) (suc k) width value e =
    ap (λ (fs : Fields). (w, v) ∷ fs) (split_nth fields k width value e)

-- The number in the field of index `k`.
pub pick_nth :
    (fields : Fields) (k width value : ℕ)
    → get_elem? fields k ≡ some (width, value)
    → width ≤ 64
    → value < 2 ^ width
    → pick_u64 (encode fields) (total_width (take k fields)) width ≡ value
pick_nth fields k width value e h r =
    ap (λ (fs : Fields). pick_u64 (encode fs) (total_width (take k fields)) width)
      (split_nth fields k width value e)
    ∙ pick_field (take k fields) (drop (suc k) fields) width value h r

-- The integer in the field of index `k`.
pub pick_signed_nth :
    (fields : Fields) (k width : ℕ) (value : ℤ)
    → get_elem? fields k ≡ some (width, complement width value)
    → 1 ≤ width
    → width ≤ 63
    → Fits width value
    → pick_i64 (encode fields) (total_width (take k fields)) width ≡ value
pick_signed_nth fields k width value e h h' r =
    ap (λ (fs : Fields). pick_i64 (encode fs) (total_width (take k fields)) width)
      (split_nth fields k width (complement width value) e)
    ∙ pick_signed_field (take k fields) (drop (suc k) fields) width value h h' r
