-- ===== src/Retention/Batch.antt =====
-- A batch of rows is deleted by their ids.
use mathlib.Core.Path.{subst}
use mathlib.Core.List.{Memᴰ}
use mathlib.Core.List.Memᴰ.{head, tail}
use pf.Base.{
  ℕ, zero, suc, ◌≤◌, ◌<◌, ◌≡◌, refl, sym, ◌∙◌, ap, Bool, true, false, not, ◌&&◌, ◌||◌, List, [],
  ◌∷◌, map, ◌==◌, ==_refl, Eq, contains, any, filter, length, take, arith, Bool-cases, inl, inr,
  none_of_any,
}

module _ {A K : Type 0} ⦃e : Eq K⦄ (id : A → K) where
  -- No id stands twice.
  abbrev pub distinct_by : List A → Bool
  distinct_by [] = true
  distinct_by (x ∷ xs) = not (any (λ y. id x == id y) xs) && distinct_by xs

module _ {A : Type 0} where
  pub filter-filter :
      (p q : A → Bool) (xs : List A) → filter p (filter q xs) ≡ filter (λ x. q x && p x) xs
  filter-filter p q [] = refl
  filter-filter p q (x ∷ xs) = ground (arith, filter-filter p q xs)

  filter_mem_congr :
      (p q : A → Bool) (xs : List A) → ((x : A) → Memᴰ x xs → p x ≡ q x) → filter p xs ≡ filter q xs
  filter_mem_congr p q [] h = refl
  filter_mem_congr p q (x ∷ xs) h =
      rw (h x (head refl), filter_mem_congr p q xs (λ y m. h y (tail m))) refl

  pub any-take : (q : A → Bool) (n : ℕ) (xs : List A) → any q (take n xs) ≡ true → any q xs ≡ true
  any-take q zero xs h = absurd (ground arith)
  any-take q (suc n) [] h = h
  any-take q (suc n) (x ∷ xs) h = ground (arith, any-take q n xs)

  pub length-filter_le : (q : A → Bool) (xs : List A) → length (filter q xs) ≤ length xs
  length-filter_le q [] = omega arith
  length-filter_le q (x ∷ xs) = ground (arith, length-filter_le q xs)

  length-filter_lt :
      (q : A → Bool) (xs : List A)
      → any (λ x. not (q x)) xs ≡ true
      → length (filter q xs) < length xs
  length-filter_lt q [] h = absurd (ground arith)
  length-filter_lt q (x ∷ xs) h = ground (arith, length-filter_lt q xs, length-filter_le q xs)

  any-filter_le : (p q : A → Bool) (xs : List A) → any q xs ≡ false → any q (filter p xs) ≡ false
  any-filter_le p q [] h = refl
  any-filter_le p q (x ∷ xs) h = ground (arith, any-filter_le p q xs)

  -- Where nothing passes a test, nothing is filtered out by its negation.
  pub filter_all : (p : A → Bool) (xs : List A) → any p xs ≡ false → filter (λ x. not (p x)) xs ≡ xs
  filter_all p [] h = refl
  filter_all p (x ∷ xs) h = ground (arith, filter_all p xs)

  pub any_of_length : (p : A → Bool) (xs : List A) → length (filter p xs) ≡ 0 → any p xs ≡ false
  any_of_length p [] h = refl
  any_of_length p (x ∷ xs) h = ground (arith, any_of_length p xs)

module _ {A K : Type 0} ⦃e : Eq K⦄ (id : A → K) (p : A → Bool) (rows batch : List A)
    (from_rows : (q : A → Bool) → any q batch ≡ true → any (λ x. p x && q x) rows ≡ true) where
  abbrev pub in_batch : A → Bool
  in_batch x = contains (map id batch) (id x)

  contains-any : (xs : List A) (k : K) → contains (map id xs) k ≡ any (λ y. id y == k) xs
  contains-any [] k = refl
  contains-any (x ∷ xs) k = ap (λ b. id x == k || b) (contains-any xs k)

  any_turned :
      (k : K) (xs : List A)
      → any (λ y. p y && (id y == k)) xs ≡ true
      → any (λ y. k == id y) xs ≡ true
  any_turned k [] h = h
  any_turned k (x ∷ xs) h = ground (arith, any_turned k xs)

  same_row :
      (xs : List A) (x : A)
      → distinct_by id xs ≡ true
      → Memᴰ x xs
      → any (λ y. p y && (id y == id x)) xs ≡ true
      → p x ≡ true
  same_row [] x h m k = elim m [ ]
  same_row (y ∷ xs) x h (head e) k =
      let turned = any_turned (id y) xs in
      let at_y : any (λ z. p z && (id z == id y)) (y ∷ xs) ≡ true =
        subst (λ z. any (λ v. p v && (id v == id z)) (y ∷ xs) ≡ true) e k in
      rw e (ground (arith, turned, at_y))
  same_row (y ∷ xs) x h (tail m) k =
      let other : (id y == id x) ≡ false =
        none_of_any (λ z. id y == id z) {xs = xs} (ground arith) m in
      same_row xs x (ground arith) m (ground (arith, other))

  -- What stays, stays.
  pub filter-without :
      distinct_by id rows ≡ true
      → filter (λ x. not (p x)) (filter (λ x. not (in_batch x)) rows) ≡ filter (λ x. not (p x)) rows
  filter-without d =
      filter-filter (λ x. not (p x)) (λ x. not (in_batch x)) rows
      ∙ filter_mem_congr _ _ rows (λ x m. elim (Bool-cases (in_batch x)) [
        | inl k ↦
            let expired : p x ≡ true =
              same_row rows x d m
                (from_rows (λ y. id y == id x) (sym (contains-any batch (id x)) ∙ k)) in
            rw (k, expired) refl
        | inr k ↦ rw k refl
      ])

  weaker :
      (q : A → Bool) (xs : List A)
      → any (λ x. p x && q x) xs ≡ true
      → any (λ x. not (not (q x))) xs ≡ true
  weaker q [] l = l
  weaker q (x ∷ xs) l = ground (arith, weaker q xs)

  -- A batch that is not empty makes the table smaller.
  pub length-without : 0 < length batch → length (filter (λ x. not (in_batch x)) rows) < length rows
  length-without h = length-filter_lt (λ x. not (in_batch x)) rows (self batch h from_rows)
    where
      self :
          (xs : List A)
          → 0 < length xs
          → ((q : A → Bool) → any q xs ≡ true → any (λ x. p x && q x) rows ≡ true)
          → any (λ x. not (not (contains (map id xs) (id x)))) rows ≡ true
      self [] l from = absurd (omega arith)
      self (x ∷ xs) l from =
          weaker (λ y. contains (map id (x ∷ xs)) (id y)) rows
            (from (λ y. contains (map id (x ∷ xs)) (id y)) (ground (arith, ==_refl (id x))))

  pub distinct_by-filter :
      (q : A → Bool) (xs : List A) → distinct_by id xs ≡ true → distinct_by id (filter q xs) ≡ true
  distinct_by-filter q [] h = refl
  distinct_by-filter q (x ∷ xs) h =
      ground (arith, distinct_by-filter q xs, any-filter_le q (λ y. id x == id y) xs)
