-- ===== src/Ssh/Commands/Laws.antt =====
-- What the operations of `SSHCommandPermissions` do for one command and one length of session.
use mathlib.Core.List.{foldl}
use pf.Base.{
  ℕ, ◌≡◌, refl, Bool, true, false, not, ◌&&◌, ◌||◌, Option, none, some, List, [], ◌∷◌, ◌++◌,
  contains, contains-append, ◌==◌, any, all, if◌then◌else◌, arith, String, string_eq, get_or,
  Option-cases, inl, inr,
}
use pf.Base.Dict.{Dict, lookup, insert, keys, lookup-insert, lookup-map_values}
use pf.Grant.Permission.{SshPermission}
use pf.Ssh.Ttl.{ttl_max, ttl_min, within, tolerates, within-ttl_max, within-ttl_min}
use pf.Ssh.Commands.{
  SshCommandAllowed, SshCommandPermissions, covered_union, covered_intersection, covered_deny,
  permits, update_command, update, allow, deny, nothing, allowed_by, intersect, subtract,
}

-- A session of `t` seconds may run the command.
abbrev pub lasts : ℕ → Option SshCommandAllowed → Bool
lasts t none = false
lasts t (some a) = within t a.ttl

-- The entry names the command, or all commands.
abbrev pub mentions_command : String → SshPermission → Bool
mentions_command command p = elim p.command_list [ none ↦ true | some cs ↦ contains cs command ]

module _ (t : ℕ) where
  lasts-covered_union :
      (a b : Option SshCommandAllowed) → lasts t (covered_union a b) ≡ (lasts t a || lasts t b)
  unfolding covered_union
  lasts-covered_union none b = refl
  lasts-covered_union (some a) none = ground arith
  lasts-covered_union (some a) (some b) = within-ttl_max t a.ttl b.ttl

  lasts-covered_intersection :
      (a b : Option SshCommandAllowed)
      → lasts t (covered_intersection a b) ≡ (lasts t a && lasts t b)
  unfolding covered_intersection
  lasts-covered_intersection none b = refl
  lasts-covered_intersection (some a) none = ground arith
  lasts-covered_intersection (some a) (some b) = within-ttl_min t a.ttl b.ttl

  lasts-covered_deny :
      (a : Option SshCommandAllowed) (ttl : Option ℕ)
      → lasts t (covered_deny a ttl) ≡ (lasts t a && tolerates t ttl)
  unfolding covered_deny
  lasts-covered_deny none ttl = refl
  lasts-covered_deny (some a) none = ground arith
  lasts-covered_deny (some a) (some ttl) = within-ttl_min t a.ttl (some ttl)

module _ (f : Option SshCommandAllowed → Option SshCommandAllowed) (command : String) where
  permits-update_command :
      (s : SshCommandPermissions) (d : String)
      → permits (update_command f s d) command
        ≡ (if d == command then f (permits s command) else permits s command)
  unfolding permits update_command
  permits-update_command s d =
      ground (arith, lookup-insert d command (f (get_or (lookup d s.named) s.other)) s.named)

  -- `f` must be idempotent: a command may be listed twice in one entry.
  permits-update_commands :
      ((a : Option SshCommandAllowed) → f (f a) ≡ f a)
      → (commands : List String) (s : SshCommandPermissions)
      → permits (foldl (update_command f) s commands) command
        ≡ (if contains commands command then f (permits s command) else permits s command)
  permits-update_commands idem [] s = refl
  permits-update_commands idem (d ∷ commands) s = ground (
    arith,
    permits-update_commands idem commands (update_command f s d),
    permits-update_command s d,
    idem (permits s command),
  )

  permits-update :
      ((a : Option SshCommandAllowed) → f (f a) ≡ f a)
      → (s : SshCommandPermissions) (commands : Option (List String))
      → permits (update f s commands) command ≡ (
          if elim commands [ none ↦ true | some cs ↦ contains cs command ]
          then f (permits s command)
          else permits s command)
  unfolding update permits
  permits-update idem s none = elim (Option-cases (lookup command s.named)) [
    | inl e ↦ ground (arith, lookup-map_values f command s.named)
    | inr (a, e) ↦ ground (arith, lookup-map_values f command s.named)
  ]
  permits-update idem s (some commands) = permits-update_commands idem commands s

union_idem :
    (ttl : Option ℕ) (a : Option SshCommandAllowed)
    → let allowed : Option SshCommandAllowed = some (record { ttl = ttl }) in
      covered_union (covered_union a allowed) allowed ≡ covered_union a allowed
unfolding covered_union ttl_max
union_idem ttl none = ground arith
union_idem ttl (some a) = ground arith

deny_idem :
    (ttl : Option ℕ) (a : Option SshCommandAllowed)
    → covered_deny (covered_deny a ttl) ttl ≡ covered_deny a ttl
unfolding covered_deny ttl_min
deny_idem ttl none = refl
deny_idem none (some a) = refl
deny_idem (some ttl) (some a) = ground arith

module _ (t : ℕ) (command : String) where
  lasts-allow :
      (s : SshCommandPermissions) (p : SshPermission)
      → lasts t (permits (allow s p) command) ≡ (
          lasts t (permits s command)
          || (mentions_command command p && within t p.max_session_ttl_s))
  unfolding allow
  lasts-allow s p =
      let allowed : Option SshCommandAllowed = some (record { ttl = p.max_session_ttl_s }) in
      ground (
        arith,
        permits-update (λ a. covered_union a allowed) command (union_idem p.max_session_ttl_s) s
            p.command_list,
        lasts-covered_union t (permits s command) allowed,
      )

  lasts-foldl-allow :
      (ps : List SshPermission) (s : SshCommandPermissions)
      → lasts t (permits (foldl allow s ps) command) ≡ (
          lasts t (permits s command)
          || any (λ p. mentions_command command p && within t p.max_session_ttl_s) ps)
  lasts-foldl-allow [] s = ground arith
  lasts-foldl-allow (p ∷ ps) s = ground (arith, lasts-foldl-allow ps (allow s p), lasts-allow s p)

  -- A list of permissions allows what one of them allows, as if each command were looked at alone.
  pub lasts-allowed_by :
      (ps : List SshPermission)
      → lasts t (permits (allowed_by ps) command)
        ≡ any (λ p. mentions_command command p && within t p.max_session_ttl_s) ps
  unfolding allowed_by permits
  lasts-allowed_by ps = lasts-foldl-allow ps nothing

  lasts-deny :
      (s : SshCommandPermissions) (p : SshPermission)
      → lasts t (permits (deny s p) command) ≡ (
          lasts t (permits s command)
          && (not (mentions_command command p) || tolerates t p.max_session_ttl_s))
  unfolding deny
  lasts-deny s p = ground (
    arith,
    permits-update (λ a. covered_deny a p.max_session_ttl_s) command (deny_idem p.max_session_ttl_s)
        s p.command_list,
    lasts-covered_deny t (permits s command) p.max_session_ttl_s,
  )

  -- A subtraction leaves what every entry that names the command tolerates.
  pub lasts-subtract :
      (s : SshCommandPermissions) (ps : List SshPermission)
      → lasts t (permits (subtract s ps) command) ≡ (
          lasts t (permits s command)
          && all (λ p. not (mentions_command command p) || tolerates t p.max_session_ttl_s) ps)
  unfolding subtract
  lasts-subtract s [] = ground arith
  lasts-subtract s (p ∷ ps) = ground (arith, lasts-subtract (deny s p) ps, lasts-deny s p)

lookup-named_from :
    (f : String → Option SshCommandAllowed) (command : String) (commands : List String)
    (d : Dict String (Option SshCommandAllowed))
    → lookup command (foldl (λ d c. insert c (f c) d) d commands)
      ≡ (if contains commands command then some (f command) else lookup command d)
lookup-named_from f command [] d = refl
lookup-named_from f command (c ∷ commands) d = ground (
  arith,
  lookup-named_from f command commands (insert c (f c) d),
  lookup-insert c command (f c) d,
)

lookup-not_in_keys :
    (command : String) (d : Dict String (Option SshCommandAllowed))
    → contains (keys d) command ≡ false
    → lookup command d ≡ none
lookup-not_in_keys command [] h = refl
lookup-not_in_keys command (e ∷ d) h = ground (arith, lookup-not_in_keys command d)

-- Whether or not either side names the command, the intersection is taken of what they permit.
pub permits-intersect :
    (s ceiling : SshCommandPermissions) (command : String)
    → permits (intersect s ceiling) command
      ≡ covered_intersection (permits s command) (permits ceiling command)
unfolding intersect permits
permits-intersect s ceiling command = ground (
  arith,
  lookup-named_from (λ c. covered_intersection (permits s c) (permits ceiling c)) command
      (keys s.named ++ keys ceiling.named) [],
  contains-append command (keys s.named) (keys ceiling.named),
  lookup-not_in_keys command s.named,
  lookup-not_in_keys command ceiling.named,
)

-- An intersection allows what both sides allow.
pub lasts-intersect :
    (t : ℕ) (command : String) (s ceiling : SshCommandPermissions)
    → lasts t (permits (intersect s ceiling) command)
      ≡ (lasts t (permits s command) && lasts t (permits ceiling command))
lasts-intersect t command s ceiling =
    rw (permits-intersect s ceiling command)
      (lasts-covered_intersection t (permits s command) (permits ceiling command))
