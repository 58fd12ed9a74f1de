-- ===== src/Text/Laws.antt =====
-- Texts that are cut at a separator: `split`, `rsplit`, and equality of joined texts.
use nmea_parser.Common.{ℕ, ◌≡◌, refl, ◌↔◌, true, [], ◌∷◌, ◌++◌, none, some, arith}
use nmea_parser.Text.{Text, eq_text, split, rsplit, Lacks}

pub eq_text_iff : (a b : Text) → (eq_text a b ≡ true) ↔ (a ≡ b)
eq_text_iff (x ∷ a) (y ∷ b) = ground (arith, eq_text_iff a b)
eq_text_iff _ _ = ground arith

pub eq_text_refl : (a : Text) → eq_text a a ≡ true
eq_text_refl a = (eq_text_iff a a).1 refl

-- Two texts that agree are cut alike at the first separator.
pub append-Lacks-injective :
    (d : ℕ) (a b x y : Text)
    → Lacks d a
    → Lacks d b
    → a ++ (d ∷ x) ≡ b ++ (d ∷ y)
    → (a ≡ b) × (x ≡ y)
append-Lacks-injective d [] [] x y ha hb e = (refl, cc)
append-Lacks-injective d [] (c ∷ b) x y ha hb e = ground arith
append-Lacks-injective d (c ∷ a) [] x y ha hb e = ground arith
append-Lacks-injective d (c ∷ a) (c' ∷ b) x y ha hb e =
    let (p, q) = append-Lacks-injective d a b x y ha.1 hb.1 cc in (cc, q)

pub Lacks-append : (d : ℕ) (a b : Text) → Lacks d a → Lacks d b → Lacks d (a ++ b)
Lacks-append d [] b ha hb = hb
Lacks-append d (c ∷ a) b ha hb = (ha.0, Lacks-append d a b ha.1 hb)

-- `split` gives back the pieces that were joined by the separator.
pub split-Lacks : (d : ℕ) (a : Text) → Lacks d a → split d a ≡ a ∷ []
unfolding split
split-Lacks d [] h = refl
split-Lacks d (c ∷ a) h = rw (h.0, split-Lacks d a h.1)

pub split-append : (d : ℕ) (a x : Text) → Lacks d a → split d (a ++ (d ∷ x)) ≡ a ∷ split d x
unfolding split
split-append d [] x h = ground arith
split-append d (c ∷ a) x h = rw (h.0, split-append d a x h.1)

rsplit-Lacks : (d : ℕ) (b : Text) → Lacks d b → rsplit d b ≡ none
unfolding rsplit
rsplit-Lacks d [] h = refl
rsplit-Lacks d (c ∷ b) h = rw (rsplit-Lacks d b h.1, h.0)

-- `rfind` finds the last separator.
pub rsplit-append : (d : ℕ) (a b : Text) → Lacks d b → rsplit d (a ++ (d ∷ b)) ≡ some (a, b)
unfolding rsplit
rsplit-append d [] b h = rw (rsplit-Lacks d b h) (ground arith)
rsplit-append d (c ∷ a) b h = rw (rsplit-append d a b h)

pub rsplit-none : (d : ℕ) (a : Text) → Lacks d a → rsplit d a ≡ none
rsplit-none d a h = rsplit-Lacks d a h
