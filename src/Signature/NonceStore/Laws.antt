-- ===== src/Signature/NonceStore/Laws.antt =====
-- What the store remembers, over any further calls.
use mathlib.Core.Path.{subst}
use pf.Base.{
  ℕ, ◌≡◌, refl, sym, ap, ◌∙◌, ◌↔◌, inl, inr, Bool, true, false, not, List, [], ◌∷◌, ◌++◌, String,
  some, string_eq, pair_eq, arith, all, Bool-cases,
}
use pf.Base.Dict.{Dict, lookup, contains_key, insert, lookup-insert}
use pf.Base.Int.{ℤ, add_ℕ, le_int}
use pf.Signature.NonceStore.{NonceStore, expire, check_and_add}

-- The arguments of a call.
pub record Call : Type 0 where
  pub key_id : String
  pub nonce : String
  pub now : ℕ
  pub created : ℤ

abbrev pub call : NonceStore → Call → NonceStore × Bool
call s c = check_and_add s c.key_id c.nonce c.now c.created

pub calls : NonceStore → List Call → NonceStore
calls s [] = s
calls s (c ∷ cs) = calls (call s c).0 cs

-- The front of what is kept is live.
abbrev pub front_live : ℕ → Dict (String × String) ℤ → Bool
front_live now [] = true
front_live now ((k, expires) ∷ kept) = le_int now expires

-- What an accepted call shows: the time of creation is not before the start of the store, entries
-- whose time is over go from the front, the pair is in none of the others, and it is added to them.
pub record IsAccepted (s s' : NonceStore) (c : Call) : Type 0 where
  pub gone : Dict (String × String) ℤ
  pub kept : Dict (String × String) ℤ
  pub split : s.seen ≡ gone ++ kept
  pub past : all (λ e. not (le_int c.now e.1)) gone ≡ true
  pub front : front_live c.now kept ≡ true
  pub after_start : le_int s.started_at c.created ≡ true
  pub is_new : contains_key (c.key_id, c.nonce) kept ≡ false
  pub stored :
      s' ≡ record s { seen = insert (c.key_id, c.nonce) (add_ℕ c.created s.window_seconds) kept }

expire_splits :
    (now : ℕ) (seen : Dict (String × String) ℤ)
    → (gone : Dict (String × String) ℤ) × (seen ≡ gone ++ expire now seen)
      × (all (λ e. not (le_int now e.1)) gone ≡ true)
      × (front_live now (expire now seen) ≡ true)
unfolding expire
expire_splits now [] = ([], refl, refl, refl)
expire_splits now ((k, e) ∷ seen) = elim (Bool-cases (le_int now e)) [
  | inl live ↦ ([], rw live refl, refl, rw live live)
  | inr over ↦
      let (gone, split, past, front) = expire_splits now seen in
      ((k, e) ∷ gone, rw over (ap (λ d. (k, e) ∷ d) split), ground arith, rw over front)
]

expire-append :
    (now : ℕ) (gone kept : Dict (String × String) ℤ)
    → all (λ e. not (le_int now e.1)) gone ≡ true
    → front_live now kept ≡ true
    → expire now (gone ++ kept) ≡ kept
unfolding expire
expire-append now [] [] past front = refl
expire-append now [] ((k, e) ∷ kept) past front = rw front refl
expire-append now ((k, e) ∷ gone) kept past front = ground (arith, expire-append now gone kept)

call-IsAccepted : (s : NonceStore) (c : Call) → (call s c).1 ≡ true → IsAccepted s (call s c).0 c
unfolding check_and_add
call-IsAccepted s c h =
    let (gone, split, past, front) = expire_splits c.now s.seen in
    let after_start : le_int s.started_at c.created ≡ true = ground arith in
    let is_new : contains_key (c.key_id, c.nonce) (expire c.now s.seen) ≡ false = ground arith in
    record {
      gone = gone;
      kept = expire c.now s.seen;
      split = split;
      past = past;
      front = front;
      after_start = after_start;
      is_new = is_new;
      stored = rw (after_start, is_new) refl;
    }

pub IsAccepted-call : (s s' : NonceStore) (c : Call) → IsAccepted s s' c → call s c ≡ (s', true)
unfolding check_and_add
IsAccepted-call s s' c a =
    let kept : expire c.now s.seen ≡ a.kept =
      ap (expire c.now) a.split ∙ expire-append c.now a.gone a.kept a.past a.front in
    rw (kept, a.after_start, a.is_new) (ap (λ n. (n, true)) (sym a.stored))

-- A call is accepted exactly so.
pub call_iff : (s s' : NonceStore) (c : Call) → (call s c ≡ (s', true)) ↔ IsAccepted s s' c
call_iff s s' c = (
  λ h. subst (λ n. IsAccepted s n c) (ap (λ p. p.0) h) (call-IsAccepted s c (ap (λ p. p.1) h)),
  IsAccepted-call s s' c,
)

-- The store remembers the pair up to the time `e`.
abbrev pub Remembers : NonceStore → String × String → ℤ → Type 0
Remembers s k e = lookup k s.seen ≡ some e

lookup-expire :
    (now : ℕ) (k : String × String) (e : ℤ) (seen : Dict (String × String) ℤ)
    → lookup k seen ≡ some e
    → le_int now e ≡ true
    → lookup k (expire now seen) ≡ some e
unfolding expire
lookup-expire now k e [] h live = cc
lookup-expire now k e ((j, f) ∷ seen) h live = ground (arith, lookup-expire now k e seen)

-- A pair is remembered through every call up to its time.
pub call-Remembers :
    (s : NonceStore) (k : String × String) (e : ℤ) (c : Call)
    → Remembers s k e
    → le_int c.now e ≡ true
    → Remembers (call s c).0 k e
unfolding check_and_add
call-Remembers s k e c h live = ground (
  arith,
  lookup-expire c.now k e s.seen h live,
  lookup-insert (c.key_id, c.nonce) k (add_ℕ c.created s.window_seconds) (expire c.now s.seen),
)

pub calls-Remembers :
    (k : String × String) (e : ℤ) (cs : List Call) (s : NonceStore)
    → Remembers s k e
    → all (λ c. le_int c.now e) cs ≡ true
    → Remembers (calls s cs) k e
unfolding calls
calls-Remembers k e [] s h live = h
calls-Remembers k e (c ∷ cs) s h live =
    calls-Remembers k e cs (call s c).0 (call-Remembers s k e c h (ground arith)) (ground arith)

pub accepted-Remembers :
    (s : NonceStore) (c : Call)
    → (call s c).1 ≡ true
    → Remembers (call s c).0 (c.key_id, c.nonce) (add_ℕ c.created s.window_seconds)
unfolding check_and_add
accepted-Remembers s c h = ground (
  arith,
  lookup-insert (c.key_id, c.nonce) (c.key_id, c.nonce) (add_ℕ c.created s.window_seconds)
      (expire c.now s.seen),
)

pub Remembers-refused :
    (s : NonceStore) (c : Call) (e : ℤ)
    → Remembers s (c.key_id, c.nonce) e
    → le_int c.now e ≡ true
    → (call s c).1 ≡ false
unfolding check_and_add
Remembers-refused s c e h live =
    ground (arith, lookup-expire c.now (c.key_id, c.nonce) e s.seen h live)

-- Once a call is accepted, each call with the same key id and nonce is refused, whatever it says it
-- was created, as long as the clock does not pass the created time of the accepted call plus the
-- window; whatever calls come in between, up to that time.
pub accepted_once :
    (s : NonceStore) (first second : Call) (between : List Call)
    → (call s first).1 ≡ true
    → second.key_id ≡ first.key_id
    → second.nonce ≡ first.nonce
    → all (λ c. le_int c.now (add_ℕ first.created s.window_seconds)) between ≡ true
    → le_int second.now (add_ℕ first.created s.window_seconds) ≡ true
    → (call (calls (call s first).0 between) second).1 ≡ false
accepted_once s first second between ok same_key same_nonce live live' =
    let e = add_ℕ first.created s.window_seconds in
    Remembers-refused (calls (call s first).0 between) second e
      (rw (same_key, same_nonce)
        (calls-Remembers (first.key_id, first.nonce) e between (call s first).0
          (accepted-Remembers s first ok) live))
      live'
