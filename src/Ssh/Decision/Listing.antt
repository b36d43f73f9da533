-- ===== src/Ssh/Decision/Listing.antt =====
-- The list of decisions that is shown to a user leaves out nobody who can get in.
use mathlib.Core.List.{foldl, Memᴰ, map}
use mathlib.Core.List.Memᴰ
use pf.Base.{
  ℕ, ◌≡◌, refl, Bool, true, false, not, ◌&&◌, ◌||◌, ◌⊎◌, inl, inr, Option, none, some, List, [],
  ◌∷◌, String, any, all, contains, contains-append, mem_of_contains, string_eq, filter_map, arith,
  Option-cases, Bool-cases,
}
use pf.Base.Dict.{lookup}
use pf.Grant.{SshGrant}
use pf.Grant.Permission.{SshPermission, SshCapability, capability_eq}
use pf.Ssh.Capabilities.Laws.{lasts as capability_lasts, mentions_capability}
use pf.Ssh.Commands.{permits}
use pf.Ssh.Commands.Laws.{lasts, mentions_command}
use pf.Ssh.Decision.{
  SshChecker, SshDecision, covering, under_ceiling, granted_decision, decide_covers, decide,
  covers_username, resolve_username, covers_unnamed_username, add_username, add_grant,
  candidate_usernames, list_decisions,
}
use pf.Ssh.Ttl.{within}
use pf.Ssh.Decision.Laws.{capability-decide_covers, command-decide_covers}

module _ (unix_username : Option String) (u : String) where
  -- The grant does not name the username, though it may cover every username.
  abbrev pub leaves_unnamed : SshGrant → Bool
  leaves_unnamed g = elim g.permission.username_list [
    | none ↦ true
    | some entries ↦ not (contains (filter_map (λ e. resolve_username e unix_username) entries) u)
  ]

  covering_unnamed :
      (gs : List SshGrant)
      → all leaves_unnamed gs ≡ true
      → covering gs (λ p. covers_username p u unix_username) ≡ covering gs covers_unnamed_username
  unfolding covering covers_username covers_unnamed_username
  covering_unnamed [] h = refl
  covering_unnamed (g ∷ gs) h = ground (arith, covering_unnamed gs)

  under_ceiling_unnamed :
      (d : SshDecision) (gs : List SshGrant)
      → all leaves_unnamed gs ≡ true
      → under_ceiling (λ p. covers_username p u unix_username) d gs
        ≡ under_ceiling covers_unnamed_username d gs
  unfolding under_ceiling
  under_ceiling_unnamed d gs h = rw (covering_unnamed gs h)

  under_ceilings_unnamed :
      (ceilings : List (List SshGrant)) (d : SshDecision)
      → all (λ gs. all leaves_unnamed gs) ceilings ≡ true
      → foldl (under_ceiling (λ p. covers_username p u unix_username)) d ceilings
        ≡ foldl (under_ceiling covers_unnamed_username) d ceilings
  under_ceilings_unnamed [] d h = refl
  under_ceilings_unnamed (gs ∷ ceilings) d h = ground (
    arith,
    under_ceilings_unnamed ceilings (under_ceiling covers_unnamed_username d gs),
    under_ceiling_unnamed d gs,
  )

  -- The one decision that is listed for "any other username" is, to the letter, the decision for
  -- each username that no matching grant, ceiling or denied entry names.
  pub decide_unnamed :
      (c : SshChecker)
      → all leaves_unnamed c.granted ≡ true
      → all (λ gs. all leaves_unnamed gs) c.ceilings ≡ true
      → all leaves_unnamed c.denied ≡ true
      → decide c u unix_username ≡ decide_covers c covers_unnamed_username
  unfolding decide decide_covers granted_decision
  decide_unnamed c hg hc hd = rw (
    covering_unnamed c.granted hg,
    covering_unnamed c.denied hd,
    under_ceilings_unnamed c.ceilings (granted_decision covers_unnamed_username c) hc,
  )

  contains-add_username :
      (us : List String) (e : String)
      → contains (add_username unix_username us e) u ≡ (
          contains us u || contains (filter_map (λ e. resolve_username e unix_username) (e ∷ [])) u)
  unfolding add_username
  contains-add_username us e = elim (Option-cases (resolve_username e unix_username)) [
    | inl no_name ↦ ground arith
    | inr (r, e') ↦ elim (Bool-cases (contains us r)) [
      | inl old ↦ ground arith
      | inr new ↦ ground (arith, contains-append u us (r ∷ []))
    ]
  ]

  contains-add_usernames :
      (es us : List String)
      → contains (foldl (add_username unix_username) us es) u
        ≡ (contains us u || contains (filter_map (λ e. resolve_username e unix_username) es) u)
  contains-add_usernames [] us = ground arith
  contains-add_usernames (e ∷ es) us = ground (
    arith,
    contains-add_usernames es (add_username unix_username us e),
    contains-add_username us e,
  )

  -- The names that the search for candidates finds.
  names_it : SshGrant → Bool
  names_it g = elim g.permission.username_list [
    | none ↦ false
    | some entries ↦ contains (filter_map (λ e. resolve_username e unix_username) entries) u
  ]

  contains-candidates :
      (gs : List SshGrant) (us : List String) (w : Bool)
      → contains (foldl (add_grant unix_username) (us, w) gs).0 u
        ≡ (contains us u || any names_it gs)
  unfolding add_grant names_it
  contains-candidates [] us w = ground arith
  contains-candidates (g ∷ gs) us w = elim (Option-cases g.permission.username_list) [
    | inl e ↦ ground (arith, contains-candidates gs us true)
    | inr (es, e) ↦ ground (
      arith,
      contains-candidates gs (foldl (add_username unix_username) us es) w,
      contains-add_usernames es us,
    )
  ]

  wildcard-candidates :
      (gs : List SshGrant) (us : List String) (w : Bool)
      → (foldl (add_grant unix_username) (us, w) gs).1
        ≡ (w || any (λ g. covers_unnamed_username g.permission) gs)
  unfolding add_grant covers_unnamed_username
  wildcard-candidates [] us w = ground arith
  wildcard-candidates (g ∷ gs) us w = elim (Option-cases g.permission.username_list) [
    | inl e ↦ ground (arith, wildcard-candidates gs us true)
    | inr (es, e) ↦
        ground (arith, wildcard-candidates gs (foldl (add_username unix_username) us es) w)
  ]

  any-covers_username :
      (gs : List SshGrant)
      → any (λ g. covers_username g.permission u unix_username) gs
        ≡ (any names_it gs || any (λ g. covers_unnamed_username g.permission) gs)
  unfolding covers_username covers_unnamed_username names_it
  any-covers_username [] = refl
  any-covers_username (g ∷ gs) = elim (Option-cases g.permission.username_list) [
    | inl e ↦ ground (arith, any-covers_username gs)
    | inr (es, e) ↦ ground (arith, any-covers_username gs)
  ]

  any_weaken :
      (p q : SshPermission → Bool) (gs : List SshGrant)
      → any (λ g. p g.permission && q g.permission) gs ≡ true
      → any (λ g. p g.permission) gs ≡ true
  any_weaken p q [] h = cc
  any_weaken p q (g ∷ gs) h = ground (arith, any_weaken p q gs)

  -- One of the two entries of the list that speak of the username.
  abbrev pub IsListed : SshChecker → Type 0
  IsListed c =
      Memᴰ (some u, decide c u unix_username) (list_decisions c unix_username)
      ⊎ Memᴰ (none, decide_covers c covers_unnamed_username) (list_decisions c unix_username)

  IsListed-of_covered :
      (c : SshChecker)
      → any (λ g. covers_username g.permission u unix_username) c.granted ≡ true
      → IsListed c
  unfolding list_decisions candidate_usernames
  IsListed-of_covered c h = elim (Bool-cases (contains found.0 u)) [
    | inl named ↦ inl (
        Memᴰ.append_left _ (
          Memᴰ.map (λ (v : String). (some v, decide c v unix_username))
            (mem_of_contains u found.0 named)))
    | inr unnamed ↦ inr (
        Memᴰ.append_right (map (λ (v : String). (some v, decide c v unix_username)) found.0)
          (rw (is_wildcard unnamed) (Memᴰ.head refl)))
  ]
    where
      found : List String × Bool
      found = foldl (add_grant unix_username) ([], false) c.granted

      is_wildcard : contains found.0 u ≡ false → found.1 ≡ true
      is_wildcard unnamed = ground (
        arith,
        contains-candidates c.granted [] false,
        wildcard-candidates c.granted [] false,
        any-covers_username c.granted,
      )

  -- If the decision for a username gives some capability or some command for any length of time,
  -- then the list shows that decision under the username, or it shows the entry for "any other
  -- username".
  pub allowed-IsListed :
      (c : SshChecker) (t : ℕ) (capability : SshCapability) (command : String)
      → (capability_lasts t (lookup capability (decide c u unix_username).capability_ttl) ≡ true)
        ⊎ (lasts t (permits (decide c u unix_username).commands command) ≡ true)
      → IsListed c
  unfolding decide
  allowed-IsListed c t capability command (inl h) =
      let covers : SshPermission → Bool = λ p. covers_username p u unix_username in
      IsListed-of_covered c (
        any_weaken covers (λ p. mentions_capability capability p && within t p.max_session_ttl_s)
          c.granted (ground (arith, capability-decide_covers covers t c capability)))
  allowed-IsListed c t capability command (inr h) =
      let covers : SshPermission → Bool = λ p. covers_username p u unix_username in
      IsListed-of_covered c (
        any_weaken covers (λ p. mentions_command command p && within t p.max_session_ttl_s)
          c.granted (ground (arith, command-decide_covers covers t c command)))
