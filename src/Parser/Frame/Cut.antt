-- ===== src/Parser/Frame/Cut.antt =====
-- The two bytes of a checksum that end inside a character.
use nmea_parser.Common.{
  ◌<◌, ◌≤◌, ◌≡◌, ◌≢◌, ◌↔◌, ◌⊎◌, refl, Bool, leb, some, [], ◌∷◌, ◌++◌, if◌then◌else◌, Outcome, ok,
  err, panic, ◌>>=◌, ◌>>◌, sym, ◌∙◌, ok-ne_panic, ok_or, or_panic, guard, safe_steps,
  invalid_sentence, arith,
}
use nmea_parser.Text.{Text, Lacks, byte_len, split_at, get_range}
use nmea_parser.Text.Laws.{rsplit-append}
use nmea_parser.Text.Slices.{split_at-zero}
use nmea_parser.Parser.Frame.{
  shed_prefix, split_checksum, verify, before_comma, all_type_chars, frame,
}

-- The first two bytes end inside a character: the first one is of more than two bytes, or it is of
-- one byte and the next one is not.
abbrev pub IsCutAtTwo : Text → Type 0
IsCutAtTwo [] = ⊥
IsCutAtTwo (c ∷ []) = 0x800 ≤ c
IsCutAtTwo (c ∷ d ∷ t) = (0x800 ≤ c) ⊎ ((c < 0x80) × (0x80 ≤ d))

-- The second slice, where it is taken at all.
taken : Text → Outcome Text
taken given = if leb 2 (byte_len given) then or_panic (get_range given 0 2) else ok []

taken_iff : (given : Text) → (taken given ≡ panic) ↔ IsCutAtTwo given
unfolding taken byte_len get_range split_at
taken_iff [] = ground arith
taken_iff (c ∷ []) = ground arith
taken_iff (c ∷ d ∷ t) = ground (arith, split_at-zero t, split_at-zero (d ∷ t))

bind-panics :
    {A B : Type 0} (m : Outcome A) (f : A → Outcome B)
    → ((a : A) → f a ≢ panic)
    → ((m >>= f) ≡ panic) ↔ (m ≡ panic)
bind-panics (ok a) f h = (λ e. absurd (h a e), λ e. cc)
bind-panics (err p) f h = (λ e. cc, λ e. cc)
bind-panics panic f h = (λ e. refl, λ e. refl)

-- What `frame` does with a sentence and its checksum.
abbrev checked : Text → Text → Outcome (Text × Text)
checked body given = do
  sentence ← verify body given
  sentence_type ← ok_or (before_comma sentence) invalid_sentence
  guard (all_type_chars sentence_type) invalid_sentence
  ok (sentence, sentence_type)

guard-ne_panic : (b : Bool) → guard b invalid_sentence ≢ panic
guard-ne_panic b = ground arith

checked-ne_panic : (body given : Text) → checked body given ≢ panic
unfolding verify
checked-ne_panic body given = search (safe_steps, guard-ne_panic) depth 20

split_checksum-taken :
    (body given : Text)
    → Lacks b'*' given
    → split_checksum (body ++ (b'*' ∷ given)) ≡ (taken given >>= λ hex. ok (body, hex))
unfolding split_checksum taken
split_checksum-taken body given h =
    rw (rsplit-append b'*' body given h, split_checksum) (ground arith)

-- A sentence with a `*` panics in its frame exactly where the first two bytes behind its last `*`
-- end inside a character.
pub frame-panics :
    (text body given : Text)
    → Lacks b'*' given
    → shed_prefix text ≡ some (body ++ (b'*' ∷ given))
    → (frame text ≡ panic) ↔ IsCutAtTwo given
unfolding frame
frame-panics text body given h e =
    let split = split_checksum (body ++ (b'*' ∷ given)) in
    let whole = bind-panics split (λ p. checked p.0 p.1) (λ p. checked-ne_panic p.0 p.1) in
    let slice =
      bind-panics (taken given) (λ hex. ok (body, hex)) (λ hex. ok-ne_panic (body, hex)) in
    let same = split_checksum-taken body given h in
    rw e (
      (λ q. (taken_iff given).0 (slice.0 (sym same ∙ whole.0 q))),
      (λ k. whole.1 (same ∙ slice.1 ((taken_iff given).1 k))),
    )
