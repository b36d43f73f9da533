-- ===== src/Base/Rows.antt =====
-- A table that is rewritten row by row while a loop goes over what it held before.
use mathlib.Core.Path.{◌≡◌, refl, sym, ap, ap₂, ◌∙◌}
use mathlib.Core.Bool.{Bool, true, false, not, ◌&&◌}
use mathlib.Core.List.{List, [], ◌∷◌, map, foldl, Memᴰ}
use mathlib.Core.Option.{Option, none, some}
use mathlib.Core.Logic.{inl, inr}
use pf.Base.Tests.{if◌then◌else◌, Bool-cases}
use mathlib.Core.List.Memᴰ.{head, tail}
use native.Mathlib.Omega.{arith}
use Prim.Native.Nat.{ℕ}
use pf.Base.Equality.{==_refl, contains, nat_eq, ◌==◌}

-- No id stands twice.
abbrev pub distinct : List ℕ → Bool
distinct [] = true
distinct (x ∷ xs) = not (contains xs x) && distinct xs

module _ {ℓ} {A : Type ℓ} where
  pub map_congr :
      (f g : A → A) (xs : List A) → ((x : A) → Memᴰ x xs → f x ≡ g x) → map f xs ≡ map g xs
  map_congr f g [] h = refl
  map_congr f g (x ∷ xs) h =
      ap₂ (λ y ys. y ∷ ys) (h x (head refl)) (map_congr f g xs (λ y m. h y (tail m)))

  pub map_same : (xs : List A) → map (λ x. x) xs ≡ xs
  map_same [] = refl
  map_same (x ∷ xs) = ap (λ ys. x ∷ ys) (map_same xs)

  pub map-map : (f g : A → A) (xs : List A) → map f (map g xs) ≡ map (λ x. f (g x)) xs
  map-map f g [] = refl
  map-map f g (x ∷ xs) = ap (λ ys. f (g x) ∷ ys) (map-map f g xs)

  contains_of_mem :
      (id : A → ℕ) {x : A} {rs : List A} → Memᴰ x rs → contains (map id rs) (id x) ≡ true
  contains_of_mem id (head e) = ground (arith, ap id e)
  contains_of_mem id (tail m) = ground (arith, contains_of_mem id m)

  -- The row with an id.
  abbrev pub row_of : (A → ℕ) → ℕ → List A → Option A
  row_of id k [] = none
  row_of id k (r ∷ rs) = if id r == k then some r else row_of id k rs

  row_of-mem :
      (id : A → ℕ) (x : A) (rs : List A)
      → distinct (map id rs) ≡ true
      → Memᴰ x rs
      → row_of id (id x) rs ≡ some x
  row_of-mem id x [] h m = elim m [ ]
  row_of-mem id x (r ∷ rs) h (head e) = ground (arith, ap id e, ==_refl (id x), ap some e)
  row_of-mem id x (r ∷ rs) h (tail m) =
      ground (arith, contains_of_mem id m, row_of-mem id x rs (ground arith) m)

  -- The rows that a loop has still to go over are read as they are.
  abbrev pub Reads : (A → ℕ) → List A → List A → Type ℓ
  Reads id rs t = (x : A) → Memᴰ x rs → row_of id (id x) t ≡ some x

  pub Reads-refl : (id : A → ℕ) (rs : List A) → distinct (map id rs) ≡ true → Reads id rs rs
  Reads-refl id rs h x m = row_of-mem id x rs h m

  -- `step r x` is what the round for `r` makes of the row `x`.
  module _ (id : A → ℕ) (step : A → A → A) where
    rounds : A → List A → A
    rounds = foldl (λ y r. step r y)

    foldl-map : (rs ts : List A) → foldl (λ t r. map (step r) t) ts rs ≡ map (λ x. rounds x rs) ts
    unfolding rounds
    foldl-map [] ts = sym (map_same ts)
    foldl-map (r ∷ rs) ts = foldl-map rs (map (step r) ts) ∙ map-map (λ x. rounds x rs) (step r) ts

    module _ (keeps : (r x : A) → id (step r x) ≡ id x)
        (other : (r x : A) → (id x == id r) ≡ false → step r x ≡ x) where
      rounds_other : (x : A) (rs : List A) → contains (map id rs) (id x) ≡ false → rounds x rs ≡ x
      unfolding rounds
      rounds_other x [] h = refl
      rounds_other x (r ∷ rs) h =
          ap (λ y. rounds y rs) (other r x (ground arith)) ∙ rounds_other x rs (ground arith)

      rounds_self :
          (x : A) (rs : List A) → distinct (map id rs) ≡ true → Memᴰ x rs → rounds x rs ≡ step x x
      unfolding rounds
      rounds_self x [] h m = elim m [ ]
      rounds_self x (r ∷ rs) h (head e) =
          rounds_other (step r x) rs (ground (arith, keeps r x, ap id e))
          ∙ ap (λ y. step y x) (sym e)
      rounds_self x (r ∷ rs) h (tail m) =
          ap (λ y. rounds y rs) (other r x (ground (arith, contains_of_mem id m)))
          ∙ rounds_self x rs (ground arith) m

      -- Each row is what its own round makes of it.
      pub foldl_rows :
          (rs : List A)
          → distinct (map id rs) ≡ true
          → foldl (λ t r. map (step r) t) rs rs ≡ map (λ x. step x x) rs
      foldl_rows rs h =
          foldl-map rs rs
          ∙ map_congr (λ x. rounds x rs) (λ x. step x x) rs (λ x m. rounds_self x rs h m)

      row_of-step :
          (r x : A) (t : List A)
          → (id x == id r) ≡ false
          → row_of id (id x) (map (step r) t) ≡ row_of id (id x) t
      row_of-step r x [] h = refl
      row_of-step r x (y ∷ t) h = elim (Bool-cases (id y == id x)) [
        | inl e ↦ ground (arith, keeps r y, other r y)
        | inr e ↦ ground (arith, keeps r y, row_of-step r x t h)
      ]

      pub Reads-step :
          (r : A) (rs t : List A)
          → distinct (map id (r ∷ rs)) ≡ true
          → Reads id (r ∷ rs) t
          → Reads id rs (map (step r) t)
      Reads-step r rs t h reads x m =
          row_of-step r x t (ground (arith, contains_of_mem id m)) ∙ reads x (tail m)
