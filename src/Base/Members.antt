-- ===== src/Base/Members.antt =====
-- Boolean tests over a list, against the members of the list. Membership keeps its position.
use mathlib.Core.Path.{◌≡◌, refl, ap}
use mathlib.Core.Bool.{Bool, true, false}
use mathlib.Core.List.{List, [], ◌∷◌, Memᴰ}
use mathlib.Core.List.Memᴰ.{head, tail}
use native.Mathlib.Omega.{arith}
use pf.Base.Lists.{any, all}
use pf.Base.Tests.{Bool-cases}
use mathlib.Core.Logic.{inl, inr}

module _ {ℓ} {A : Type ℓ} (p : A → Bool) where
  pub exists_of_any : (xs : List A) → any p xs ≡ true → (x : A) × Memᴰ x xs × (p x ≡ true)
  exists_of_any [] h = cc
  exists_of_any (x ∷ xs) h = elim (Bool-cases (p x)) [
    | inl here ↦ (x, head refl, here)
    | inr there ↦ let (y, m, e) = exists_of_any xs (ground arith) in (y, tail m, e)
  ]

  pub any_of_mem : {x : A} {xs : List A} → Memᴰ x xs → p x ≡ true → any p xs ≡ true
  any_of_mem (head e) h = ground (arith, ap p e)
  any_of_mem (tail m) h = ground (arith, any_of_mem m h)

  pub all_of_forall : (xs : List A) → ((x : A) → Memᴰ x xs → p x ≡ true) → all p xs ≡ true
  all_of_forall [] h = refl
  all_of_forall (x ∷ xs) h = ground (arith, h x (head refl), all_of_forall xs (λ y m. h y (tail m)))

  pub forall_of_all : {x : A} {xs : List A} → all p xs ≡ true → Memᴰ x xs → p x ≡ true
  forall_of_all h (head e) = ground (arith, ap p e)
  forall_of_all {xs = x ∷ xs} h (tail m) = forall_of_all (ground arith) m

  pub none_of_any : {x : A} {xs : List A} → any p xs ≡ false → Memᴰ x xs → p x ≡ false
  none_of_any h (head e) = ground (arith, ap p e)
  none_of_any {xs = x ∷ xs} h (tail m) = none_of_any (ground arith) m

  pub any_of_none : (xs : List A) → ((x : A) → Memᴰ x xs → p x ≡ false) → any p xs ≡ false
  any_of_none [] h = refl
  any_of_none (x ∷ xs) h = ground (arith, h x (head refl), any_of_none xs (λ y m. h y (tail m)))
