-- ===== src/Retention/Rounds.antt =====
-- A loop that ends when a round finds nothing to do; `none` where the rounds are not enough.
use mathlib.Core.Path.{subst}
use pf.Base.{
  ℕ, zero, suc, ◌<◌, ◌≡◌, refl, sym, ◌∙◌, Option, none, some, get_or, ap, arith, Option-cases, inl,
  inr,
}

unfoldable pub rounds : {S : Type 0} → ℕ → (S → Option S) → S → Option S
rounds zero round s = none
rounds (suc n) round s = elim (round s) [ none ↦ some s | some s' ↦ rounds n round s' ]

rounds_stopped :
    {S : Type 0} (round : S → Option S) (n : ℕ) (s : S)
    → round s ≡ none
    → rounds (suc n) round s ≡ some s
unfolding rounds
rounds_stopped round n s e = rw (rounds, e) refl

rounds_more :
    {S : Type 0} (round : S → Option S) (n : ℕ) (s s' : S)
    → round s ≡ some s'
    → rounds (suc n) round s ≡ rounds n round s'
unfolding rounds
rounds_more round n s s' e = rw (rounds, e) refl

-- Where every round makes the state smaller, one round more than it is large is enough; what every
-- round keeps holds at the end, where a round finds nothing to do.
pub rounds_end :
    {S : Type 0} (round : S → Option S) (size : S → ℕ) (Kept : S → Type 0)
    → ((s s' : S) → Kept s → round s ≡ some s' → Kept s' × (size s' < size s))
    → (n : ℕ) (s : S) → Kept s
    → size s < n
    → (s' : S) × (rounds n round s ≡ some s') × Kept s' × (round s' ≡ none)
rounds_end round size Kept keeps zero s k h = absurd (omega (arith, h))
rounds_end round size Kept keeps (suc n) s k h = elim (Option-cases (round s)) [
  | inl e ↦ (s, rounds_stopped round n s e, k, e)
  | inr (s', e) ↦
      let (k', smaller) = keeps s s' k e in
      let (end, returns, kept, stops) =
        rounds_end round size Kept keeps n s' k' (omega (arith, smaller, h)) in
      (end, rounds_more round n s s' e ∙ returns, kept, stops)
]

some_get : {S : Type 0} (s : S) {t : S} → some s ≡ some t → s ≡ t
some_get s h = ap (λ o. get_or o s) h

-- What every round keeps holds at the end.
pub rounds_keep :
    {S : Type 0} (round : S → Option S) (Kept : S → Type 0)
    → ((s s' : S) → Kept s → round s ≡ some s' → Kept s')
    → (n : ℕ) (s end : S) → Kept s
    → rounds n round s ≡ some end
    → Kept end
unfolding rounds
rounds_keep round Kept keeps zero s end k h = cc
rounds_keep round Kept keeps (suc n) s end k h = elim (Option-cases (round s)) [
  | inl e ↦ subst Kept (some_get s (sym (rounds_stopped round n s e) ∙ h)) k
  | inr (s', e) ↦
      rounds_keep round Kept keeps n s' end (keeps s s' k e) (sym (rounds_more round n s s' e) ∙ h)
]
