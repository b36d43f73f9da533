-- ===== src/Naming/Remove.antt =====
-- `find` and `remove` of src/provablyfine/api/model/identity_grants.py, bastion_grants.py and
-- tag_grants.py.
pub mod Laws
use pf.Base.{ℕ, List}
use pf.Grant.{Grant}
use pf.Naming.Names.{
  names_identity, without_identity, names_bastion, without_bastion, references_tag, names_tag,
  rewrite,
}
use pf.Naming.Store.{Store, Owner, find, remove}

unfoldable pub find_identity : Store → ℕ → List Owner
find_identity s identity_id = find (λ g. names_identity g identity_id) s

unfoldable pub remove_identity : Store → ℕ → Store × List Owner
remove_identity s identity_id =
    remove (λ g. names_identity g identity_id) (λ gs. without_identity gs identity_id) s

unfoldable pub find_bastion : Store → ℕ → List Owner
find_bastion s bastion_id = find (λ g. names_bastion g bastion_id) s

unfoldable pub remove_bastion : Store → ℕ → Store × List Owner
remove_bastion s bastion_id =
    remove (λ g. names_bastion g bastion_id) (λ gs. without_bastion gs bastion_id) s

-- The tag module finds by `_references`, and removes by `_names`.
unfoldable pub find_tag : Store → ℕ → List Owner
find_tag s tag_id = find (λ g. references_tag g tag_id) s

unfoldable pub remove_tag : Store → ℕ → Store × List Owner
remove_tag s tag_id = remove (λ g. names_tag g tag_id) (λ gs. rewrite gs tag_id) s
