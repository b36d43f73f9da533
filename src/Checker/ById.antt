-- ===== src/Checker/ById.antt =====
-- What the checkers of objects named by one id share (src/provablyfine/api/grant.py).
use pf.Base.{
  ℕ, Bool, true, false, not, ◌&&◌, Option, none, some, ◌==◌, option_eq, nat_eq, is_some,
  if◌then◌else◌,
}
use pf.Grant.{IdFilter}

-- `cmp`: a filter without an id matches every object.
unfoldable pub matches_id : IdFilter → Option ℕ → Bool
matches_id f target = if is_some f.id && not (f.id == target) then false else true

-- `if g.permission.update is None: return True`, then `getattr(g.permission.update, field)`.
abbrev pub may_update {ℓ} : {U : Type ℓ} → Option U → (U → Bool) → Bool
may_update none get = true
may_update (some u) get = get u
