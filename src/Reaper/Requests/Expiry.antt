-- ===== src/Reaper/Requests/Expiry.antt =====
-- Which requests expire.
use pf.Base.{
  ℕ, ◌+◌, String, Bool, true, false, not, ◌&&◌, leb, if◌then◌else◌, nat_eq, string_eq, contains,
  filter, all, Option, none, some, get_or, List, [], ◌∷◌, ◌≡◌, refl, ap, ◌∙◌, arith,
}
use pf.Base.Dict.{lookup, erase, lookup-insert, lookup-erase}
use pf.Reaper.Requests.{kill_request_ttl, Orphans, set_default, expire_each, expire}

-- No id stands twice.
abbrev pub is_set : List String → Bool
is_set [] = true
is_set (x ∷ xs) = not (contains xs x) && is_set xs

-- The request was first seen without a session at least the time to live ago.
abbrev pub is_old : ℕ → Option ℕ → Bool
is_old now none = false
is_old now (some t) = leb (t + kill_request_ttl) now

-- What is kept of one request.
abbrev pub kept : ℕ → Bool → Option ℕ → Option ℕ
kept now orphan seen = if orphan && not (is_old now seen) then some (get_or seen now) else none

lookup-filter :
    (c : String) (orphans : List String) (table : Orphans)
    → lookup c (filter (λ e. contains orphans e.0) table)
      ≡ (if contains orphans c then lookup c table else none)
lookup-filter c orphans [] = ground arith
lookup-filter c orphans ((d, t) ∷ table) =
    ground (arith, lookup-filter c orphans table, λ (s : d ≡ c). ap (contains orphans) s)

module _ (unlinks : String → Bool) (now : ℕ) where
  expire_each-removed :
      (cs : List String) (table : Orphans) (c : String)
      → is_set cs ≡ true
      → all unlinks cs ≡ true
      → contains (expire_each unlinks now cs table).removed c
        ≡ (contains cs c && is_old now (lookup c table))
  unfolding expire_each
  expire_each-removed [] table c h u = refl
  expire_each-removed (d ∷ cs) table c h u =
      let seen = set_default d now table in
      ground (
        arith,
        expire_each-removed cs seen c,
        expire_each-removed cs (erase d seen) c,
        lookup-insert d c (get_or (lookup d table) now) table,
        lookup-erase d c seen,
        λ (s : d ≡ c). ap (contains cs) s,
        λ (s : d ≡ c). ap (λ x. lookup x table) s,
      )

  expire_each-orphans :
      (cs : List String) (table : Orphans) (c : String)
      → is_set cs ≡ true
      → all unlinks cs ≡ true
      → lookup c (expire_each unlinks now cs table).orphans
        ≡ (if contains cs c then kept now true (lookup c table) else lookup c table)
  unfolding expire_each
  expire_each-orphans [] table c h u = refl
  expire_each-orphans (d ∷ cs) table c h u =
      let seen = set_default d now table in
      ground (
        arith,
        expire_each-orphans cs seen c,
        expire_each-orphans cs (erase d seen) c,
        lookup-insert d c (get_or (lookup d table) now) table,
        lookup-erase d c seen,
        λ (s : d ≡ c). ap (contains cs) s,
        λ (s : d ≡ c). ap (λ x. lookup x table) s,
      )

  -- Where no removal fails, a request without a session goes exactly when it was first seen without
  -- one at least 60 seconds ago. The others are kept with the time when they were first seen, which
  -- is now if they are new, and nothing is kept of a request that has a session or is gone.
  pub expire-is_old :
      (orphans : List String) (table : Orphans) (c : String)
      → is_set orphans ≡ true
      → all unlinks orphans ≡ true
      → let e = expire unlinks now orphans table in
        (contains e.removed c ≡ (contains orphans c && is_old now (lookup c table)))
        × (lookup c e.orphans ≡ kept now (contains orphans c) (lookup c table))
  unfolding expire
  expire-is_old orphans table c h u =
      let left = filter (λ e. contains orphans e.0) table in
      (
        expire_each-removed orphans left c h u ∙ ground (arith, lookup-filter c orphans table),
        expire_each-orphans orphans left c h u ∙ ground (arith, lookup-filter c orphans table),
      )
