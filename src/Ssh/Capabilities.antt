-- ===== src/Ssh/Capabilities.antt =====
-- `CapabilityTtl` of src/provablyfine/api/grant.py: the capabilities that are granted, each with
-- the bound of its session. A `frozenset` is a list without repetitions.
pub mod Laws
use mathlib.Core.List.{foldl}
use pf.Base.{
  ℕ, ◌≡◌, refl, Bool, true, false, not, ◌&&◌, ◌||◌, Option, none, some, List, [], ◌∷◌, contains,
  ◌==◌, filter, any, all, if◌then◌else◌, arith,
}
use pf.Base.Dict.{Dict, lookup, contains_key, insert, erase, lookup-insert, lookup-erase}
use pf.Grant.Permission.{
  SshCapability, shell, pty, user_rc, agent_forwarding, x11_forwarding, port_forwarding,
  SshPermission, capability_eq,
}
use pf.Ssh.Ttl.{ttl_max, ttl_min, within, tolerates, within-ttl_max, within-ttl_min}

abbrev pub CapabilityTtl : Type 0
CapabilityTtl = Dict SshCapability (Option ℕ)

abbrev all_ssh_capabilities : List SshCapability
all_ssh_capabilities =
    shell ∷ pty ∷ user_rc ∷ agent_forwarding ∷ x11_forwarding ∷ port_forwarding ∷ []

-- `frozenset(xs)`
frozenset : List SshCapability → List SshCapability
frozenset [] = []
frozenset (c ∷ cs) = let rest = frozenset cs in if contains rest c then rest else c ∷ rest

unfoldable pub capabilities : SshPermission → List SshCapability
unfolding frozenset
capabilities p = elim p.capability_list [ none ↦ all_ssh_capabilities | some cs ↦ frozenset cs ]

-- One round of the inner loop of `allowed_by`.
allow_capability : Option ℕ → CapabilityTtl → SshCapability → CapabilityTtl
allow_capability bound ttl c =
    insert c (elim (lookup c ttl) [ none ↦ bound | some old ↦ ttl_max old bound ]) ttl

allow : CapabilityTtl → SshPermission → CapabilityTtl
allow ttl p = foldl (allow_capability p.max_session_ttl_s) ttl (capabilities p)

unfoldable pub allowed_by : List SshPermission → CapabilityTtl
unfolding allow allow_capability
allowed_by permissions = foldl allow [] permissions

unfoldable pub intersect : CapabilityTtl → CapabilityTtl → CapabilityTtl
intersect [] ceiling = []
intersect ((c, ttl) ∷ d) ceiling =
    let rest = intersect d ceiling in
    elim (lookup c ceiling) [ none ↦ rest | some bound ↦ (c, ttl_min ttl bound) ∷ rest ]

-- One round of the inner loop of `subtract`, where `c` is a key.
deny_capability : Option ℕ → CapabilityTtl → SshCapability → CapabilityTtl
deny_capability none ttl c = erase c ttl
deny_capability (some bound) ttl c = elim (lookup c ttl) [
  | none ↦ ttl
  | some old ↦ insert c (ttl_min old (some bound)) ttl
]

-- `_capabilities(p) & ttl.keys()` is taken before the loop changes the dict.
deny : CapabilityTtl → SshPermission → CapabilityTtl
deny ttl p =
    foldl (deny_capability p.max_session_ttl_s) ttl
      (filter (λ c. contains_key c ttl) (capabilities p))

unfoldable pub subtract : CapabilityTtl → List SshPermission → CapabilityTtl
unfolding deny deny_capability
subtract ttl permissions = foldl deny ttl permissions
