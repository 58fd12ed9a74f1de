-- ===== src/Gnss/Gsv/Reassembly.antt =====
-- The sentences of a GSV message through the store.
use nmea_parser.Common.{
  ℕ, zero, suc, ◌+◌, ◌^◌, ◌≤◌, ◌<◌, ◌≡◌, refl, sym, ap, ◌∙◌, ◌≢◌, append-cancel, Bool, true, false,
  Option, none, some, List, [], ◌∷◌, ◌++◌, lt→ltb, ◌==◌, ==_iff, Bool-cases, inl, inr, arith, ok,
}
use nmea_parser.Text.{Text, eq_text, show_u64}
use nmea_parser.Text.Laws.{eq_text_iff, eq_text_refl}
use nmea_parser.Text.Decimal.{show_u64-injective}
use nmea_parser.Store.{NmeaParser, push_string, pull_string, contains_key}
use nmea_parser.Message.{ParsedMessage}
use nmea_parser.Parser.Talker.{NavigationSystem}
use nmea_parser.Parser.Vdm.Fragments.{fragment, fragment-pull_string}
use nmea_parser.Gnss.Data.{GsvData, GnssMessage}
use nmea_parser.Gnss.Gsv.{make_gsv_key, rounds, satellites, count_found, collect, answer, receive}

-- Sentences of one message with different numbers have different keys.
pub make_gsv_key-injective :
    (s : Text) (c n n' : ℕ)
    → n < 10 ^ 20
    → n' < 10 ^ 20
    → make_gsv_key s c n ≡ make_gsv_key s c n'
    → n ≡ n'
unfolding make_gsv_key
make_gsv_key-injective s c n n' h h' e =
    let comma : Text = b',' ∷ [] in
    let counts = append-cancel comma (append-cancel s e) in
    show_u64-injective n n' h h' (append-cancel comma (append-cancel (show_u64 c) counts))

pub distinct_keys :
    (s : Text) (c i j : ℕ)
    → i < 2 ^ 32
    → j < 2 ^ 32
    → make_gsv_key s c i ≡ make_gsv_key s c j
    → i ≡ j
distinct_keys s c i j h k = make_gsv_key-injective s c i j (omega arith) (omega arith)

pub eq_text-ne : (a b : Text) → a ≢ b → eq_text a b ≡ false
eq_text-ne a b ne = elim (Bool-cases (eq_text a b)) [
  | inl same ↦ absurd (ne ((eq_text_iff a b).0 same))
  | inr other ↦ other
]

-- The number `j` is one of the `n` from `i` on.
abbrev pub Within : ℕ → ℕ → ℕ → Type 0
Within i n j = (i ≤ j) × (j < i + n)

module _ {T : Type 0} where
  contains_key-some :
      (self : NmeaParser T) (k t : Text) → fragment self k ≡ some t → contains_key self k ≡ true
  unfolding contains_key
  contains_key-some self k t e = rw e

  contains_key-none :
      (self : NmeaParser T) (k : Text) → fragment self k ≡ none → contains_key self k ≡ false
  unfolding contains_key
  contains_key-none self k e = rw e

  count_found-le : (self : NmeaParser T) (key : ℕ → Text) (n i : ℕ) → count_found self key i n ≤ n
  unfolding count_found
  count_found-le self key zero i = omega arith
  count_found-le self key (suc n) i = ground (arith, count_found-le self key n (suc i))

  count_found-all :
      (self : NmeaParser T) (key texts : ℕ → Text) (n i : ℕ)
      → ((j : ℕ) → Within i n j → fragment self (key j) ≡ some (texts j))
      → count_found self key i n ≡ n
  unfolding count_found
  count_found-all self key texts zero i h = refl
  count_found-all self key texts (suc n) i h = rw (
    contains_key-some self (key i) (texts i) (h i (omega arith)),
    count_found-all self key texts n (suc i) (λ j w. h j (omega (arith, w))),
  )

  count_found-missing :
      (self : NmeaParser T) (key : ℕ → Text) (n i j : ℕ)
      → Within i n j
      → fragment self (key j) ≡ none
      → count_found self key i n < n
  unfolding count_found
  count_found-missing self key zero i j w e = absurd (omega (arith, w))
  count_found-missing self key (suc n) i j w e = elim (Bool-cases (i == j)) [
    | inl same ↦
        let here : contains_key self (key i) ≡ false =
          contains_key-none self (key i)
            (ap (λ (k : ℕ). fragment self (key k)) ((==_iff i j).0 same) ∙ e) in
        rw here (omega (arith, count_found-le self key n (suc i)))
    | inr other ↦
        let below = count_found-missing self key n (suc i) j (ground (arith, w)) e in
        ground (arith, below)
  ]

-- The satellites of the texts from `i` on, in order.
abbrev pub gather :
    {S : Type 0} → (Text → Option S) → NavigationSystem → (ℕ → Text) → ℕ → ℕ → List (GsvData S)
gather parse_f32 nav_system texts i zero = []
gather parse_f32 nav_system texts i (suc n) =
    satellites parse_f32 nav_system (texts i) ++ gather parse_f32 nav_system texts (suc i) n

module _ {S T : Type 0} (parse_f32 : Text → Option S) (nav_system : NavigationSystem)
    (key : ℕ → Text) (bound : ℕ)
    (distinct : (i j : ℕ) → i < bound → j < bound → key i ≡ key j → i ≡ j) where
  pull_other :
      (self : NmeaParser T) (i : ℕ) (t : Text)
      → key i ≢ t
      → fragment (pull_string self (key i)).0 t ≡ fragment self t
  pull_other self i t ne = rw (fragment-pull_string self (key i) t, eq_text-ne (key i) t ne)

  collect-suc :
      (self : NmeaParser T) (i n : ℕ) (text : Text)
      → fragment self (key i) ≡ some text
      → let next = collect parse_f32 nav_system (pull_string self (key i)).0 key (suc i) n in
        collect parse_f32 nav_system self key i (suc n)
        ≡ (next.0, satellites parse_f32 nav_system text ++ next.1)
  unfolding collect pull_string
  collect-suc self i n text e = rw e

  collect-zero :
      (self : NmeaParser T) (i : ℕ) → collect parse_f32 nav_system self key i 0 ≡ (self, [])
  unfolding collect
  collect-zero self i = refl

  collect-all :
      (n i : ℕ) (self : NmeaParser T) (texts : ℕ → Text)
      → i + n ≤ bound
      → ((j : ℕ) → Within i n j → fragment self (key j) ≡ some (texts j))
      → let r = collect parse_f32 nav_system self key i n in
        (r.1 ≡ gather parse_f32 nav_system texts i n)
        × ((j : ℕ) → Within i n j → fragment r.0 (key j) ≡ none)
        × ((t : Text) → ((j : ℕ) → Within i n j → key j ≢ t) → fragment r.0 t ≡ fragment self t)
  collect-all zero i self texts b h =
      rw (collect-zero self i) (refl, λ j w. absurd (omega (arith, w)), λ t ne. refl)
  collect-all (suc n) i self texts b h =
      let s1 = (pull_string self (key i)).0 in
      let later : (j : ℕ) → Within (suc i) n j → key i ≢ key j =
        λ j w e. absurd (omega (arith, w, distinct i j (omega arith) (omega (arith, w)) e)) in
      let (p, q, r) =
        collect-all n (suc i) s1 texts (omega arith)
          (λ j w. pull_other self i (key j) (later j w) ∙ h j (omega (arith, w))) in
      let apart : (j : ℕ) → Within (suc i) n j → key j ≢ key i = λ j w e. later j w (sym e) in
      let gone : fragment s1 (key i) ≡ none =
        rw (fragment-pull_string self (key i) (key i), eq_text_refl (key i)) in
      rw (collect-suc self i n (texts i) (h i (omega arith))) (
        rw p,
        λ j w. elim (Bool-cases (i == j)) [
          | inl same ↦ rw (← (==_iff i j).0 same) (r (key i) apart ∙ gone)
          | inr other ↦ q j (ground (arith, w))
        ],
        λ t ne. r t (λ j w. ne j (omega (arith, w))) ∙ pull_other self i t (ne i (omega arith)),
      )

module _ {F S T Z : Type 0} (parse_f32 : Text → Option S) (overflow_checks : Bool)
    (nav_system : NavigationSystem) (msg_type : Text) (msg_count : ℕ)
    (small : msg_count + 1 < 2 ^ 32) where
  receive-answer :
      (store : NmeaParser T) (sentence : Text) (msg_num : ℕ)
      → receive parse_f32 {F = F} {Z = Z} overflow_checks nav_system store sentence msg_type
          msg_count msg_num
        ≡ answer parse_f32 nav_system
            (push_string store (make_gsv_key msg_type msg_count msg_num) sentence)
            (make_gsv_key msg_type msg_count)
            msg_count
            (ok msg_count)
  unfolding receive rounds
  receive-answer store sentence msg_num = rw (lt→ltb (msg_count + 1) (2 ^ 32) small)

  -- A sentence that leaves the store without one of the message's sentences is kept, and answered by
  -- no message.
  pub receive-incomplete :
      (store : NmeaParser T) (sentence : Text) (msg_num j : ℕ)
      → Within 1 msg_count j
      → let store' = push_string store (make_gsv_key msg_type msg_count msg_num) sentence in
        fragment store' (make_gsv_key msg_type msg_count j) ≡ none
        → receive parse_f32 {F = F} {Z = Z} overflow_checks nav_system store sentence msg_type
            msg_count msg_num
          ≡ (store', ok ParsedMessage.incomplete)
  unfolding answer
  receive-incomplete store sentence msg_num j w e =
      let store' = push_string store (make_gsv_key msg_type msg_count msg_num) sentence in
      let less = count_found-missing store' (make_gsv_key msg_type msg_count) msg_count 1 j w e in
      receive-answer store sentence msg_num ∙ ground (arith, less)

  answer-all :
      (store' : NmeaParser T) (texts : ℕ → Text)
      → ((j : ℕ)
          → Within 1 msg_count j
          → fragment store' (make_gsv_key msg_type msg_count j) ≡ some (texts j))
      → let r = collect parse_f32 nav_system store' (make_gsv_key msg_type msg_count) 1 msg_count in
        answer parse_f32 {F = F} {Z = Z} nav_system store'
          (make_gsv_key msg_type msg_count)
          msg_count
          (ok msg_count)
        ≡ (r.0, ok (ParsedMessage.gnss (GnssMessage.gsv r.1)))
  unfolding answer
  answer-all store' texts h = rw (
    count_found-all store' (make_gsv_key msg_type msg_count) texts msg_count 1 h,
    (==_iff msg_count msg_count).1 refl,
  )

  pub receive_complete :
      (store : NmeaParser T) (sentence : Text) (msg_num : ℕ) (texts : ℕ → Text)
      → let store' = push_string store (make_gsv_key msg_type msg_count msg_num) sentence in
        ((j : ℕ)
          → Within 1 msg_count j
          → fragment store' (make_gsv_key msg_type msg_count j) ≡ some (texts j))
        → let r =
            receive parse_f32 {F = F} {Z = Z} overflow_checks nav_system store sentence msg_type
              msg_count msg_num in
          (r.1
            ≡ ok (
                ParsedMessage.gnss
                  (GnssMessage.gsv (gather parse_f32 nav_system texts 1 msg_count))))
          × ((j : ℕ)
              → Within 1 msg_count j
              → fragment r.0 (make_gsv_key msg_type msg_count j) ≡ none)
          × ((t : Text)
              → ((j : ℕ) → Within 1 msg_count j → make_gsv_key msg_type msg_count j ≢ t)
              → fragment r.0 t ≡ fragment store' t)
  receive_complete store sentence msg_num texts h =
      let key = make_gsv_key msg_type msg_count in
      let store' = push_string store (key msg_num) sentence in
      let (p, q, r) =
        collect-all parse_f32 nav_system key (2 ^ 32) (distinct_keys msg_type msg_count) msg_count 1
          store' texts (omega arith) h in
      rw (receive-answer store sentence msg_num, answer-all store' texts h) (rw p, q, r)
