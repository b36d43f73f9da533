-- ===== src/Checker.antt =====
-- The class `Checker` of src/provablyfine/api/grant.py: what the roles of the caller grant, within
-- what the boundaries of the caller allow. Log calls are left out.
pub mod Policy
pub mod ById
pub mod TagChecker
pub mod BoundaryChecker
pub mod RoleChecker
pub mod TenantChecker
pub mod AuthChecker
pub mod BastionChecker
pub mod IdentityChecker
pub mod AuditLogChecker
pub mod LiveChecker
pub mod Creation
pub mod Tests
use pf.Base.{
  ℕ, Bool, true, false, not, ◌&&◌, Option, none, some, List, [], ◌++◌, any, length, flat_map,
  filter_map, ltb, if◌then◌else◌,
}
use pf.Grant.{Grant, Boundary, Role}

-- `cls` answers `isinstance(g, cls)` with the grant at that class.
pub record Checker (G : Type 0) : Type 0 where
  pub boundaries : List Boundary
  pub roles : List Role
  pub filter : G → Bool
  pub cls : Grant → Option G

module _ {G : Type 0} where
  -- `isinstance(g, self._cls) and self._filter(g) and cmp(g)`
  unfoldable pub fits : Checker G → (G → Bool) → Grant → Bool
  fits c cmp g = elim (c.cls g) [ none ↦ false | some x ↦ c.filter x && cmp x ]

  -- The matching grant itself, which the loop over the roles appends.
  unfoldable pub fitting : Checker G → (G → Bool) → Grant → Option G
  fitting c cmp g = elim (c.cls g) [
    | none ↦ none
    | some x ↦ if c.filter x && cmp x then some x else none
  ]

  -- `boundary.ceiling_list is not None and not any(…)`
  above_ceiling : Checker G → (G → Bool) → Option (List Grant) → Bool
  above_ceiling c cmp none = false
  above_ceiling c cmp (some ceiling) = not (any (fits c cmp) ceiling)

  -- One round of the loop over the boundaries: true if `list_can` returns early there.
  unfoldable pub refuses : Checker G → (G → Bool) → Boundary → Bool
  unfolding above_ceiling
  refuses c cmp b =
      if any (fits c cmp) b.denied_list then true else above_ceiling c cmp b.ceiling_list

  unfoldable pub list_can : Checker G → (G → Bool) → List G
  list_can c cmp =
      if any (refuses c cmp) c.boundaries
      then []
      else flat_map (λ r. filter_map (fitting c cmp) r.grant_list) c.roles

  unfoldable pub can : Checker G → (G → Bool) → Bool
  can c cmp = ltb 0 (length (list_can c cmp))
