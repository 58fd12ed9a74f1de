-- ===== src/Text/Joined.antt =====
-- Texts joined by a separator that none of them holds.
use nmea_parser.Common.{◌==◌, false, ℕ, ◌≡◌, List, [], ◌∷◌, ◌++◌}
use nmea_parser.Text.{Text, Lacks, split}
use nmea_parser.Text.Laws.{Lacks-append, split-Lacks, split-append}

abbrev pub join : ℕ → Text → List Text → Text
join d a [] = a
join d a (b ∷ bs) = a ++ (d ∷ join d b bs)

abbrev pub AllLack : ℕ → Text → List Text → Type 0
AllLack d a [] = Lacks d a
AllLack d a (b ∷ bs) = Lacks d a × AllLack d b bs

-- `split` gives back the texts that were joined.
pub split-join :
    (d : ℕ) (a : Text) (bs : List Text) → AllLack d a bs → split d (join d a bs) ≡ a ∷ bs
split-join d a [] h = split-Lacks d a h
split-join d a (b ∷ bs) h = rw (split-append d a (join d b bs) h.0, split-join d b bs h.1)

-- A character that stands in none of the texts and is not the separator.
pub join-Lacks :
    (d e : ℕ) (a : Text) (bs : List Text)
    → (e == d) ≡ false
    → AllLack d a bs
    → Lacks d (join e a bs)
join-Lacks d e a [] ne h = h
join-Lacks d e a (b ∷ bs) ne h = Lacks-append d a _ h.0 (ne, join-Lacks d e b bs ne h.1)
