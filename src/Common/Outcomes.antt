-- ===== src/Common/Outcomes.antt =====
-- What a Rust call does: it returns a value, returns a `ParseError` (error.rs), or panics.
-- The texts that the errors carry are left out.
use mathlib.Core.Bool.{Bool, true, false}
use mathlib.Core.Path.{refl, ◌≡◌}
use mathlib.Core.Logic.{◌≢◌, ◌⊎◌, inl, inr}
use nmea_parser.Common.Tests.{if◌then◌else◌}
use mathlib.Core.Option.{Option, none, some}

pub data ParseError : Type 0 where
  unsupported_sentence_type corrupted_sentence invalid_sentence : ParseError

pub data Outcome {ℓ} (A : Type ℓ) : Type ℓ where
  ok : A → Outcome A
  err : ParseError → Outcome A
  panic : Outcome A

infixl 5 ◌>>=◌ ◌>>◌
abbrev pub ◌>>=◌ {ℓ κ} : {A : Type ℓ} {B : Type κ} → Outcome A → (A → Outcome B) → Outcome B
ok a >>= f = f a
err e >>= f = err e
panic >>= f = panic

abbrev pub ◌>>◌ {ℓ} : {B : Type ℓ} → Outcome (Unit {0}) → Outcome B → Outcome B
m >> k = m >>= λ _. k

abbrev pub guard : Bool → ParseError → Outcome (Unit {0})
guard true e = ok tt
guard false e = err e

-- `o.ok_or(e)?` and an operation that panics on `none`.
abbrev pub ok_or {ℓ} : {A : Type ℓ} → Option A → ParseError → Outcome A
ok_or (some a) e = ok a
ok_or none e = err e

abbrev pub or_panic {ℓ} : {A : Type ℓ} → Option A → Outcome A
or_panic (some a) = ok a
or_panic none = panic

-- A chain panics only where one of its steps does.
pub bind-ne_panic {ℓ κ} :
    {A : Type ℓ} {B : Type κ} (m : Outcome A) (f : A → Outcome B)
    → m ≢ panic
    → ((a : A) → f a ≢ panic)
    → (m >>= f) ≢ panic
bind-ne_panic (ok a) f h k = k a
bind-ne_panic (err e) f h k = λ p. cc
bind-ne_panic panic f h k = λ p. h refl

pub Outcome-cases {ℓ} :
    {A : Type ℓ} (o : Outcome A)
    → ((a : A) × (o ≡ ok a)) ⊎ (((e : ParseError) × (o ≡ err e)) ⊎ (o ≡ panic))
Outcome-cases (ok a) = inl (a, refl)
Outcome-cases (err e) = inr (inl (e, refl))
Outcome-cases panic = inr (inr refl)

-- A chain that gives a value went through the values of its steps.
pub bind-ok {ℓ κ} :
    {A : Type ℓ} {B : Type κ} (m : Outcome A) (f : A → Outcome B) {b : B}
    → (m >>= f) ≡ ok b
    → (a : A) × (m ≡ ok a) × (f a ≡ ok b)
bind-ok (ok a) f e = (a, refl, e)
bind-ok (err e) f p = absurd cc
bind-ok panic f p = absurd cc

pub ok_or-ok {ℓ} :
    {A : Type ℓ} (o : Option A) (e : ParseError) {a : A} → ok_or o e ≡ ok a → o ≡ some a
ok_or-ok (some a) e p = cc
ok_or-ok none e p = absurd cc

pub ok-ne_panic {ℓ} : {A : Type ℓ} (a : A) → ok a ≢ panic
ok-ne_panic a e = cc

pub err-ne_panic {ℓ} : {A : Type ℓ} (e : ParseError) → ◌≢◌ {A = Outcome A} (err e) panic
err-ne_panic e p = cc

pub ok_or-ne_panic {ℓ} : {A : Type ℓ} (o : Option A) (e : ParseError) → ok_or o e ≢ panic
ok_or-ne_panic (some a) e p = cc
ok_or-ne_panic none e p = cc

pub if-ne_panic {ℓ} :
    {A : Type ℓ} (b : Bool) (x y : Outcome A) → x ≢ panic → y ≢ panic → (if b then x else y) ≢ panic
if-ne_panic true x y h k = h
if-ne_panic false x y h k = k

-- What `search` shows with these: a chain of steps that never panic never panics.
pub ruleset safe_steps = (bind-ne_panic, ok-ne_panic, err-ne_panic, ok_or-ne_panic, if-ne_panic)
