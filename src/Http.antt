-- ===== src/Http.antt =====
-- How a request ends: a result, a problem response (src/provablyfine/api/responses.py), or an
-- exception that the server answers with status 500.
use pf.Base.{ℕ, String, Bool, true, false, Option, none, some, ◌≡◌, refl, ap, ◌⊎◌, inl, inr}

-- The status and the title of `responses.problem_response`; the detail is left out.
pub record Problem : Type 0 where
  pub status : ℕ
  pub title : String

pub data Outcome {ℓ} (A : Type ℓ) : Type ℓ where
  crash : Outcome A
  problem : Problem → Outcome A
  ok : A → Outcome A

module _ {ℓ κ} {A : Type ℓ} {B : Type κ} where
  infixl 5 ◌>>=◌
  -- A statement that follows another one.
  abbrev pub ◌>>=◌ : Outcome A → (A → Outcome B) → Outcome B
  crash >>= next = crash
  problem p >>= next = problem p
  ok a >>= next = next a

  -- What succeeds has succeeded in both of its steps.
  pub >>=-inverts :
      (step : Outcome A) (next : A → Outcome B) {b : B}
      → (step >>= next) ≡ ok b
      → (a : A) × (step ≡ ok a) × (next a ≡ ok b)
  >>=-inverts crash next done = cc
  >>=-inverts (problem p) next done = cc
  >>=-inverts (ok a) next done = (a, refl, done)

module _ {ℓ} {B : Type ℓ} where
  infixl 5 ◌>>◌
  abbrev pub ◌>>◌ : Outcome (Unit {0}) → Outcome B → Outcome B
  step >> next = step >>= λ _. next

abbrev pub fail {ℓ} : {A : Type ℓ} → ℕ → String → Outcome A
fail status title = problem (record { status = status; title = title })

-- `if test: raise ProblemHTTPException(…)`
abbrev pub fail_if : Bool → ℕ → String → Outcome (Unit {0})
fail_if true status title = fail status title
fail_if false status title = ok tt

-- A value that must be there.
abbrev pub or_fail {ℓ} : {A : Type ℓ} → Option A → ℕ → String → Outcome A
or_fail none status title = fail status title
or_fail (some a) status title = ok a

-- `assert test`
abbrev pub assert : Bool → Outcome (Unit {0})
assert true = ok tt
assert false = crash

value_of {ℓ} : {A : Type ℓ} → A → Outcome A → A
value_of default (ok a) = a
value_of default _ = default

pub ok-injective {ℓ} : {A : Type ℓ} {a b : A} → ok a ≡ ok b → a ≡ b
unfolding value_of
ok-injective {a = a} h = ap (value_of a) h

pub Outcome-cases {ℓ} :
    {A : Type ℓ} (o : Outcome A)
    → ((a : A) × (o ≡ ok a)) ⊎ ((p : Problem) × (o ≡ problem p)) ⊎ (o ≡ crash)
Outcome-cases (ok a) = inl (a, refl)
Outcome-cases (problem p) = inr (inl (p, refl))
Outcome-cases crash = inr (inr refl)

-- A value that is there, or else an exception that is not caught.
abbrev pub or_crash {ℓ} : {A : Type ℓ} → Option A → Outcome A
or_crash none = crash
or_crash (some a) = ok a

pub or_fail-inverts {ℓ} :
    {A : Type ℓ} (o : Option A) (status : ℕ) (title : String) {a : A}
    → or_fail o status title ≡ ok a
    → o ≡ some a
or_fail-inverts none status title h = cc
or_fail-inverts (some a) status title h = ap some (ok-injective h)

pub or_crash-inverts {ℓ} : {A : Type ℓ} (o : Option A) {a : A} → or_crash o ≡ ok a → o ≡ some a
or_crash-inverts none h = cc
or_crash-inverts (some a) h = ap some (ok-injective h)
