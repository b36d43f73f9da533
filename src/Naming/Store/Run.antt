-- ===== src/Naming/Store/Run.antt =====
-- Everything that a run of `find` and `remove` computes with, for use in `unfolding`.
use pf.Base.{nat_eq, string_eq}
use pf.Naming.Store.{
  entry_for, set_role, update_role, old_ceiling, set_boundary, update_boundary, add_key, from_keys,
  role_owner, boundary_owner, find, remove_role, remove_boundary, remove_loops, remove,
}

unfoldable pub run : Unit {0}
unfolding entry_for set_role update_role old_ceiling set_boundary update_boundary add_key from_keys
    role_owner boundary_owner find remove_role remove_boundary remove_loops remove nat_eq string_eq
run = tt
