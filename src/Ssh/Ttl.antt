-- ===== src/Ssh/Ttl.antt =====
-- Bounds on the length of a session, in seconds, where `none` is no bound
-- (src/provablyfine/api/grant.py).
use pf.Base.{
  ℕ, ◌+◌, ◌≡◌, Bool, true, false, ◌&&◌, ◌||◌, refl, Option, none, some, List, [], ◌∷◌, min, max,
  leb, all, filter_map, arith,
}

unfoldable pub ttl_max : Option ℕ → Option ℕ → Option ℕ
ttl_max none b = none
ttl_max (some a) none = none
ttl_max (some a) (some b) = some (max a b)

unfoldable pub ttl_min : Option ℕ → Option ℕ → Option ℕ
ttl_min none b = b
ttl_min (some a) none = some a
ttl_min (some a) (some b) = some (min a b)

-- `min(xs)` of a list that is not empty, given its head.
min_of : ℕ → List ℕ → ℕ
min_of a [] = a
min_of a (x ∷ xs) = min_of (min a x) xs

-- `now + min(bounded)`, and `None` where the list is empty.
deadline_of : ℕ → List ℕ → Option ℕ
deadline_of now [] = none
deadline_of now (ttl ∷ bounded) = some (now + min_of ttl bounded)

unfoldable pub deadline : ℕ → List (Option ℕ) → Option ℕ
unfolding min_of deadline_of
deadline now ttl_list = deadline_of now (filter_map (λ ttl. ttl) ttl_list)

-- A session of `t` seconds keeps to the bound.
abbrev pub within : ℕ → Option ℕ → Bool
within t none = true
within t (some bound) = leb t bound

-- A denied entry with a bound still lets sessions through that keep to it; one without denies all.
abbrev pub tolerates : ℕ → Option ℕ → Bool
tolerates t none = false
tolerates t (some bound) = leb t bound

pub within-ttl_max : (t : ℕ) (a b : Option ℕ) → within t (ttl_max a b) ≡ (within t a || within t b)
unfolding ttl_max
within-ttl_max t none b = refl
within-ttl_max t (some a) none = ground arith
within-ttl_max t (some a) (some b) = ground arith

pub within-ttl_min : (t : ℕ) (a b : Option ℕ) → within t (ttl_min a b) ≡ (within t a && within t b)
unfolding ttl_min
within-ttl_min t none b = refl
within-ttl_min t (some a) none = ground arith
within-ttl_min t (some a) (some b) = ground arith

leb-min_of : (now t a : ℕ) (xs : List ℕ) → leb t (min_of a xs) ≡ (leb t a && all (λ x. leb t x) xs)
unfolding min_of
leb-min_of now t a [] = ground arith
leb-min_of now t a (x ∷ xs) = ground (arith, leb-min_of now t (min a x) xs)

all-within :
    (t : ℕ) (ttls : List (Option ℕ))
    → all (λ x. leb t x) (filter_map (λ ttl. ttl) ttls) ≡ all (within t) ttls
all-within t [] = refl
all-within t (none ∷ ttls) = all-within t ttls
all-within t (some ttl ∷ ttls) = ground (arith, all-within t ttls)

leb-add : (now t b : ℕ) → leb (now + t) (now + b) ≡ leb t b
leb-add now t b = ground arith

within-deadline_of :
    (now t : ℕ) (bounded : List ℕ)
    → within (now + t) (deadline_of now bounded) ≡ all (λ x. leb t x) bounded
unfolding deadline_of
within-deadline_of now t [] = refl
within-deadline_of now t (x ∷ xs) =
    ground (arith, leb-min_of now t x xs, leb-add now t (min_of x xs))

-- A session that starts now ends by the deadline exactly when its length keeps to every bound in
-- the list; without any bound there is no deadline.
pub within-deadline :
    (now t : ℕ) (ttls : List (Option ℕ))
    → within (now + t) (deadline now ttls) ≡ all (within t) ttls
unfolding deadline
within-deadline now t ttls =
    ground (arith, within-deadline_of now t (filter_map (λ ttl. ttl) ttls), all-within t ttls)
