-- ===== src/Ssh/Capabilities/Laws.antt =====
-- What the operations of `CapabilityTtl` do for one capability and one length of session.
use mathlib.Core.List.{foldl}
use pf.Base.{
  ℕ, ◌≡◌, refl, Bool, false, not, ◌&&◌, ◌||◌, Option, none, some, List, [], ◌∷◌, contains, ◌==◌,
  filter, any, all, arith, Option-cases, inl, inr,
}
use pf.Base.Dict.{lookup, contains_key, lookup-insert, lookup-erase}
use pf.Grant.Permission.{SshCapability, SshPermission, capability_eq}
use pf.Ssh.Ttl.{ttl_max, ttl_min, within, tolerates, within-ttl_max, within-ttl_min}
use pf.Ssh.Capabilities.{
  CapabilityTtl, frozenset, capabilities, allow_capability, allow, allowed_by, intersect,
  deny_capability, deny, subtract,
}

-- A session of `t` seconds may use the capability.
abbrev pub lasts : ℕ → Option (Option ℕ) → Bool
lasts t none = false
lasts t (some bound) = within t bound

-- The entry names the capability.
abbrev pub mentions_capability : SshCapability → SshPermission → Bool
mentions_capability c p = contains (capabilities p) c

module _ (t : ℕ) (c : SshCapability) where
  contains-frozenset : (cs : List SshCapability) → contains (frozenset cs) c ≡ contains cs c
  unfolding frozenset
  contains-frozenset [] = refl
  contains-frozenset (d ∷ cs) = ground (arith, contains-frozenset cs)

  lasts-allow_capability :
      (bound : Option ℕ) (ttl : CapabilityTtl) (d : SshCapability)
      → lasts t (lookup c (allow_capability bound ttl d))
        ≡ (lasts t (lookup c ttl) || (d == c && within t bound))
  unfolding allow_capability
  lasts-allow_capability bound ttl d = elim (Option-cases (lookup d ttl)) [
    | inl e ↦ ground (arith, lookup-insert d c bound ttl)
    | inr (old, e) ↦
        ground (arith, lookup-insert d c (ttl_max old bound) ttl, within-ttl_max t old bound)
  ]

  lasts-allow_all :
      (bound : Option ℕ) (cs : List SshCapability) (ttl : CapabilityTtl)
      → lasts t (lookup c (foldl (allow_capability bound) ttl cs))
        ≡ (lasts t (lookup c ttl) || (contains cs c && within t bound))
  lasts-allow_all bound [] ttl = ground arith
  lasts-allow_all bound (d ∷ cs) ttl = ground (
    arith,
    lasts-allow_all bound cs (allow_capability bound ttl d),
    lasts-allow_capability bound ttl d,
  )

  lasts-foldl-allow :
      (ps : List SshPermission) (ttl : CapabilityTtl)
      → lasts t (lookup c (foldl allow ttl ps)) ≡ (
          lasts t (lookup c ttl)
          || any (λ p. mentions_capability c p && within t p.max_session_ttl_s) ps)
  unfolding allow
  lasts-foldl-allow [] ttl = ground arith
  lasts-foldl-allow (p ∷ ps) ttl = ground (
    arith,
    lasts-foldl-allow ps (allow ttl p),
    lasts-allow_all p.max_session_ttl_s (capabilities p) ttl,
  )

  -- A list of permissions allows what one of them allows.
  pub lasts-allowed_by :
      (ps : List SshPermission)
      → lasts t (lookup c (allowed_by ps))
        ≡ any (λ p. mentions_capability c p && within t p.max_session_ttl_s) ps
  unfolding allowed_by
  lasts-allowed_by ps = lasts-foldl-allow ps []

  -- An intersection allows what both sides allow.
  pub lasts-intersect :
      (d e : CapabilityTtl)
      → lasts t (lookup c (intersect d e)) ≡ (lasts t (lookup c d) && lasts t (lookup c e))
  unfolding intersect
  lasts-intersect [] e = refl
  lasts-intersect ((k, ttl) ∷ d) e = elim (Option-cases (lookup k e)) [
    | inl none_k ↦ ground (arith, lasts-intersect d e)
    | inr (bound, some_k) ↦ ground (arith, lasts-intersect d e, within-ttl_min t ttl bound)
  ]

  lasts-deny_capability :
      (bound : Option ℕ) (ttl : CapabilityTtl) (d : SshCapability)
      → lasts t (lookup c (deny_capability bound ttl d))
        ≡ (lasts t (lookup c ttl) && (not (d == c) || tolerates t bound))
  unfolding deny_capability
  lasts-deny_capability none ttl d = ground (arith, lookup-erase d c ttl)
  lasts-deny_capability (some bound) ttl d = elim (Option-cases (lookup d ttl)) [
    | inl e ↦ ground arith
    | inr (old, e) ↦
        ground (
          arith,
          lookup-insert d c (ttl_min old (some bound)) ttl,
          within-ttl_min t old (some bound),
        )
  ]

  lasts-deny_all :
      (bound : Option ℕ) (cs : List SshCapability) (ttl : CapabilityTtl)
      → lasts t (lookup c (foldl (deny_capability bound) ttl cs))
        ≡ (lasts t (lookup c ttl) && (not (contains cs c) || tolerates t bound))
  lasts-deny_all bound [] ttl = ground arith
  lasts-deny_all bound (d ∷ cs) ttl = ground (
    arith,
    lasts-deny_all bound cs (deny_capability bound ttl d),
    lasts-deny_capability bound ttl d,
  )

  contains-filter :
      (ttl : CapabilityTtl) (cs : List SshCapability)
      → contains (filter (λ d. contains_key d ttl) cs) c ≡ (contains cs c && contains_key c ttl)
  contains-filter ttl [] = refl
  contains-filter ttl (d ∷ cs) = ground (arith, contains-filter ttl cs)

  lasts-deny :
      (ttl : CapabilityTtl) (p : SshPermission)
      → lasts t (lookup c (deny ttl p)) ≡ (
          lasts t (lookup c ttl)
          && (not (mentions_capability c p) || tolerates t p.max_session_ttl_s))
  unfolding deny
  lasts-deny ttl p = ground (
    arith,
    lasts-deny_all p.max_session_ttl_s (filter (λ d. contains_key d ttl) (capabilities p)) ttl,
    contains-filter ttl (capabilities p),
  )

  -- A subtraction leaves what every entry that names the capability tolerates.
  pub lasts-subtract :
      (ttl : CapabilityTtl) (ps : List SshPermission)
      → lasts t (lookup c (subtract ttl ps)) ≡ (
          lasts t (lookup c ttl)
          && all (λ p. not (mentions_capability c p) || tolerates t p.max_session_ttl_s) ps)
  unfolding subtract
  lasts-subtract ttl [] = ground arith
  lasts-subtract ttl (p ∷ ps) = ground (arith, lasts-subtract (deny ttl p) ps, lasts-deny ttl p)
