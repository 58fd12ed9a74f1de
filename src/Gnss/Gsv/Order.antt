-- ===== src/Gnss/Gsv/Order.antt =====
-- The sentences of a GSV message in any order of their arrival.
use nmea_parser.Common.{
  ℕ, ◌+◌, ◌^◌, ◌<◌, ◌≡◌, refl, ◌∙◌, ◌≢◌, ◌⊎◌, Bool, true, false, ◌||◌, Option, none, some, List, [],
  ◌∷◌, map, ◌==◌, ==_iff, Bool-cases, inl, inr, arith, Outcome, ok,
}
use nmea_parser.Text.{Text, split}
use nmea_parser.Text.Laws.{eq_text_refl}
use nmea_parser.Store.{NmeaParser, push_string}
use nmea_parser.Message.{ParsedMessage}
use nmea_parser.Parser.Talker.{NavigationSystem}
use nmea_parser.Parser.Vdm.Fragments.{fragment, fragment-push_string}
use nmea_parser.Gnss.Data.{GnssMessage}
use nmea_parser.Gnss.Gsv.{make_gsv_key, first_field, numbers, receive, handle}
use nmea_parser.Gnss.Gsv.Untouched.{handle-saved_vsds}
use nmea_parser.Gnss.Gsv.Reassembly.{
  Within, gather, distinct_keys, eq_text-ne, receive-incomplete, receive_complete,
}

-- The number stands in the list.
abbrev pub among : ℕ → List ℕ → Bool
among j [] = false
among j (k ∷ ks) = k == j || among j ks

module _ {F S T Z : Type 0} (parse_f32 : Text → Option S) (overflow_checks : Bool)
    (nav_system : NavigationSystem) (texts : ℕ → Text) where
  -- The sentences with the given numbers, one after the other, and their answers.
  abbrev pub arrive :
      NmeaParser T
      → List ℕ
      → NmeaParser T × List (Outcome (ParsedMessage F T (GnssMessage F S T Z)))
  arrive store [] = (store, [])
  arrive store (k ∷ ks) =
      let (store', a) = handle parse_f32 overflow_checks (texts k) nav_system store in
      let (store'', rest) = arrive store' ks in (store'', a ∷ rest)

arrive-saved_vsds :
    {S T : Type 0} (F Z : Type 0) (parse_f32 : Text → Option S) (overflow_checks : Bool)
    (nav_system : NavigationSystem) (texts : ℕ → Text) (store : NmeaParser T) (ks : List ℕ)
    → (arrive {F = F} {Z = Z} parse_f32 overflow_checks nav_system texts store ks).0.saved_vsds
      ≡ store.saved_vsds
arrive-saved_vsds F Z parse_f32 overflow_checks nav_system texts store [] = refl
arrive-saved_vsds F Z parse_f32 overflow_checks nav_system texts store (k ∷ ks) =
    arrive-saved_vsds F Z parse_f32 overflow_checks nav_system texts
      (handle parse_f32 {F = F} {Z = Z} overflow_checks (texts k) nav_system store).0 ks
    ∙ handle-saved_vsds F Z parse_f32 overflow_checks (texts k) nav_system store

module _ {T : Type 0} (s : Text) (c : ℕ) (store : NmeaParser T) (k : ℕ) (text : Text) where
  pushed_here :
      fragment (push_string store (make_gsv_key s c k) text) (make_gsv_key s c k) ≡ some text
  pushed_here = rw (
    fragment-push_string store (make_gsv_key s c k) text (make_gsv_key s c k),
    eq_text_refl (make_gsv_key s c k),
  )

  pushed_elsewhere :
      (t : Text)
      → make_gsv_key s c k ≢ t
      → fragment (push_string store (make_gsv_key s c k) text) t ≡ fragment store t
  pushed_elsewhere t ne =
      rw (
        fragment-push_string store (make_gsv_key s c k) text t,
        eq_text-ne (make_gsv_key s c k) t ne,
      )

module _ {F S T Z : Type 0} (parse_f32 : Text → Option S) (overflow_checks : Bool)
    (nav_system : NavigationSystem) (msg_type : Text) (msg_count : ℕ) (texts : ℕ → Text)
    (small : msg_count + 1 < 2 ^ 32) (last : ℕ) (last_within : Within 1 msg_count last)
    (numbered : (k : ℕ) → Within 1 msg_count k → numbers (split b',' (texts k)) ≡ ok (msg_count, k))
    (one_type : (k : ℕ)
      → Within 1 msg_count k
      → first_field (split b',' (texts k)) ≡ msg_type) where
  handle-receive :
      (store : NmeaParser T) (k : ℕ)
      → Within 1 msg_count k
      → handle parse_f32 {F = F} {Z = Z} overflow_checks (texts k) nav_system store
        ≡ receive parse_f32 overflow_checks nav_system store (texts k) msg_type msg_count k
  unfolding handle
  handle-receive store k w = rw (handle, numbered k w, one_type k w)

  -- What holds after the sentences in front of the last one.
  pub arrive-front :
      (front : List ℕ) (store : NmeaParser T)
      → among last front ≡ false
      → ((k : ℕ) → among k front ≡ true → Within 1 msg_count k)
      → fragment store (make_gsv_key msg_type msg_count last) ≡ none
      → let r = arrive {F = F} {Z = Z} parse_f32 overflow_checks nav_system texts store front in
        (r.1 ≡ map (λ k. ok ParsedMessage.incomplete) front)
        × (fragment r.0 (make_gsv_key msg_type msg_count last) ≡ none)
        × ((j : ℕ)
            → Within 1 msg_count j
            → (among j front ≡ true)
              ⊎ (fragment store (make_gsv_key msg_type msg_count j) ≡ some (texts j))
            → fragment r.0 (make_gsv_key msg_type msg_count j) ≡ some (texts j))
        × ((t : Text)
            → ((j : ℕ) → Within 1 msg_count j → make_gsv_key msg_type msg_count j ≢ t)
            → fragment r.0 t ≡ fragment store t)
  arrive-front [] store out within e =
      (refl, e, λ j w. elim [ inl p ↦ absurd (cc p) | inr q ↦ q ], λ t ne. refl)
  arrive-front (k ∷ ks) store out within e =
      let key = make_gsv_key msg_type msg_count in
      let s1 = push_string store (key k) (texts k) in
      let k_within : Within 1 msg_count k = within k (ground (arith, (==_iff k k).1 refl)) in
      let apart : (j : ℕ) → Within 1 msg_count j → (k == j) ≡ false → key k ≢ key j = λ j w ne p.
        absurd (
          ground (
            arith,
            distinct_keys msg_type msg_count k j (omega (arith, k_within, small))
                (omega (arith, w, small)) p,
          )) in
      let missing : fragment s1 (key last) ≡ none =
        pushed_elsewhere msg_type msg_count store k (texts k) (key last)
          (apart last last_within (ground arith))
        ∙ e in
      let here : (j : ℕ) → (k == j) ≡ true → fragment s1 (key j) ≡ some (texts j) =
        λ j same. rw (← (==_iff k j).0 same) (pushed_here msg_type msg_count store k (texts k)) in
      let step =
        receive-incomplete {F = F} {Z = Z} parse_f32 overflow_checks nav_system msg_type msg_count
          small store (texts k) k last last_within missing in
      let answered = handle-receive store k k_within ∙ step in
      let (p, q, r, u) =
        arrive-front ks s1 (ground arith) (λ j m. within j (ground arith)) missing in
      rw answered (
        rw p,
        q,
        λ j w held. elim (Bool-cases (k == j)) [
          | inl same ↦ r j w (inr (here j same))
          | inr other ↦ r j w (elim held [
            | inl m ↦ inl (ground arith)
            | inr h ↦ inr (
                pushed_elsewhere msg_type msg_count store k (texts k) (key j) (apart j w other) ∙ h)
          ])
        ],
        λ t ne. u t ne ∙ pushed_elsewhere msg_type msg_count store k (texts k) t (ne k k_within),
      )

  -- The sentence that comes last, where the store holds all the others.
  pub handle-last :
      (store : NmeaParser T)
      → ((j : ℕ)
          → Within 1 msg_count j
          → j ≢ last
          → fragment store (make_gsv_key msg_type msg_count j) ≡ some (texts j))
      → let answer =
          handle parse_f32 {F = F} {Z = Z} overflow_checks (texts last) nav_system store in
        (answer.1
          ≡ ok (
              ParsedMessage.gnss (GnssMessage.gsv (gather parse_f32 nav_system texts 1 msg_count))))
        × ((j : ℕ)
            → Within 1 msg_count j
            → fragment answer.0 (make_gsv_key msg_type msg_count j) ≡ none)
        × ((t : Text)
            → ((j : ℕ) → Within 1 msg_count j → make_gsv_key msg_type msg_count j ≢ t)
            → fragment answer.0 t ≡ fragment store t)
  handle-last store others =
      let key = make_gsv_key msg_type msg_count in
      let s1 = push_string store (key last) (texts last) in
      let here : (j : ℕ) → (last == j) ≡ true → fragment s1 (key j) ≡ some (texts j) = λ j same.
        rw (← (==_iff last j).0 same) (pushed_here msg_type msg_count store last (texts last)) in
      let apart : (j : ℕ) → Within 1 msg_count j → (last == j) ≡ false → key last ≢ key j =
        λ j w ne p. absurd (
          ground (
            arith,
            distinct_keys msg_type msg_count last j (omega (arith, last_within, small))
                (omega (arith, w, small)) p,
          )) in
      let held : (j : ℕ) → Within 1 msg_count j → fragment s1 (key j) ≡ some (texts j) = λ j w.
        elim (Bool-cases (last == j)) [
          | inl same ↦ here j same
          | inr other ↦
              pushed_elsewhere msg_type msg_count store last (texts last) (key j) (apart j w other)
              ∙ others j w (λ q. absurd (ground arith))
        ] in
      let (a, b, c) =
        receive_complete {F = F} {Z = Z} parse_f32 overflow_checks nav_system msg_type msg_count
          small store (texts last) last texts held in
      rw (handle-receive store last last_within) (
        a,
        b,
        λ t ne.
            c t ne
            ∙ pushed_elsewhere msg_type msg_count store last (texts last) t (ne last last_within),
      )

  -- The numbered sentences of a GSV message of one type and less than 2 ^ 32 - 1 sentences, of which
  -- the store does not hold the one that comes last: in whatever order the others come, each is
  -- answered by no message, the last one by the satellites of all sentences in the order of their
  -- numbers, and then the store holds no sentence of the message, under every other key the fragment
  -- that it held before, and the same static data.
  pub handle-any_order :
      (front : List ℕ) (store : NmeaParser T)
      → among last front ≡ false
      → ((k : ℕ) → among k front ≡ true → Within 1 msg_count k)
      → ((j : ℕ) → Within 1 msg_count j → j ≢ last → among j front ≡ true)
      → fragment store (make_gsv_key msg_type msg_count last) ≡ none
      → let r = arrive {F = F} {Z = Z} parse_f32 overflow_checks nav_system texts store front in
        let answer = handle parse_f32 {F = F} {Z = Z} overflow_checks (texts last) nav_system r.0 in
        (r.1 ≡ map (λ k. ok ParsedMessage.incomplete) front)
        × (answer.1
            ≡ ok (
                ParsedMessage.gnss
                  (GnssMessage.gsv (gather parse_f32 nav_system texts 1 msg_count))))
        × ((j : ℕ)
            → Within 1 msg_count j
            → fragment answer.0 (make_gsv_key msg_type msg_count j) ≡ none)
        × ((t : Text)
            → ((j : ℕ) → Within 1 msg_count j → make_gsv_key msg_type msg_count j ≢ t)
            → fragment answer.0 t ≡ fragment store t)
        × (answer.0.saved_vsds ≡ store.saved_vsds)
  handle-any_order front store out within all e =
      let (p, _, r, u) = arrive-front front store out within e in
      let before =
        (arrive {F = F} {Z = Z} parse_f32 overflow_checks nav_system texts store front).0 in
      let (a, b, c) = handle-last before (λ j w ne. r j w (inl (all j w ne))) in
      (
        p,
        a,
        b,
        λ t ne. c t ne ∙ u t ne,
        handle-saved_vsds F Z parse_f32 overflow_checks (texts last) nav_system before
            ∙ arrive-saved_vsds F Z parse_f32 overflow_checks nav_system texts store front,
      )
