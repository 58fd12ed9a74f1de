-- ===== src/Gnss/Gsv/Exclusive.antt =====
-- A GSV sentence leaves the halves of AIS messages alone: its keys are no keys of theirs.
use nmea_parser.Common.{
  Option, ℕ, ◌≡◌, ◌≢◌, refl, true, false, Bool, List, [], ◌∷◌, ◌++◌, ◌==◌, Bool-cases, inl, inr,
  arith,
}
use nmea_parser.Text.{Text, Lacks, split, cons_head, show_u64}
use nmea_parser.Text.Laws.{append-Lacks-injective}
use nmea_parser.Store.{NmeaParser}
use nmea_parser.Parser.Talker.{NavigationSystem}
use nmea_parser.Parser.Vdm.{make_fragment_key}
use nmea_parser.Parser.Vdm.Fragments.{fragment}
use nmea_parser.Parser.Vdm.Exclusive.{Exclusive}
use nmea_parser.Parser.Vdm.Halves.{half_key, vdm_type, vdm_type-Lacks, digits-Lacks, number}
use nmea_parser.Gnss.Gsv.Apart.{fragment-handle_apart}
use nmea_parser.Gnss.Gsv.{make_gsv_key, first_field, handle}

first_field-cons_head : (c : ℕ) (ts : List Text) → first_field (cons_head c ts) ≡ c ∷ first_field ts
unfolding cons_head
first_field-cons_head c [] = refl
first_field-cons_head c (t ∷ ts) = refl

pub first_field-split-Lacks : (t : Text) → Lacks b',' (first_field (split b',' t))
unfolding split
first_field-split-Lacks [] = tt
first_field-split-Lacks (c ∷ t) = elim (Bool-cases (c == b',')) [
  | inl p ↦ rw p tt
  | inr p ↦ rw (p, first_field-cons_head c (split b',' t)) (p, first_field-split-Lacks t)
]

Lacks-append_ne : (d : ℕ) (a b x : Text) → Lacks d a → a ≢ b ++ (d ∷ x)
Lacks-append_ne d [] [] x h e = cc
Lacks-append_ne d [] (y ∷ b) x h e = cc
Lacks-append_ne d (c ∷ a) [] x h e = ground arith
Lacks-append_ne d (c ∷ a) (y ∷ b) x h e = Lacks-append_ne d a b x h.1 cc

pub gsv_key-ne_half_key :
    (msg_type : Text) (count num i : ℕ) (own b : Bool) (r : Text)
    → Lacks b',' msg_type
    → make_gsv_key msg_type count num ≢ half_key own i r b
unfolding make_gsv_key make_fragment_key
gsv_key-ne_half_key msg_type count num i own b r h e =
    let (et, e1) =
      append-Lacks-injective b',' msg_type (vdm_type own) _ _ h (vdm_type-Lacks own) e in
    let (ec, e2) =
      append-Lacks-injective b',' (show_u64 count) (show_u64 2) _ _ (digits-Lacks count)
        (digits-Lacks 2) e1 in
    Lacks-append_ne b',' (show_u64 num) (show_u64 (number b)) _ (digits-Lacks num) e2

-- A GSV sentence leaves every half of an AIS message as it is.
pub fragment-handle :
    {S T : Type 0} (F Z : Type 0) (parse_f32 : Text → Option S) (own : Bool) (i : ℕ) (r : Text)
    (b checks : Bool) (sentence : Text) (nav_system : NavigationSystem) (store : NmeaParser T)
    → fragment
        (handle parse_f32 {F = F} {Z = Z} checks sentence nav_system store).0
        (half_key own i r b)
      ≡ fragment store (half_key own i r b)
fragment-handle F Z parse_f32 own i r b checks sentence nav_system store =
    fragment-handle_apart F Z parse_f32 checks sentence nav_system store (half_key own i r b)
      (λ count num e k.
        gsv_key-ne_half_key (first_field (split b',' sentence)) count k i own b r
          (first_field-split-Lacks sentence))

-- A GSV sentence keeps the store from holding both halves of an AIS message.
pub Exclusive-handle :
    {S T : Type 0} (F Z : Type 0) (parse_f32 : Text → Option S) (checks : Bool) (sentence : Text)
    (nav_system : NavigationSystem) (store : NmeaParser T)
    → Exclusive store
    → Exclusive (handle parse_f32 {F = F} {Z = Z} checks sentence nav_system store).0
Exclusive-handle F Z parse_f32 checks sentence nav_system store h own i r =
    rw
      (
        fragment-handle F Z parse_f32 own i r false checks sentence nav_system store,
        fragment-handle F Z parse_f32 own i r true checks sentence nav_system store,
      )
      (h own i r)
