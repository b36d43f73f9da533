-- ===== src/Naming/Tests.antt =====
-- Runs of the cleanup after a deletion on a few grants, and the theorems at concrete inputs.
use pf.Base.{
  ℕ, ◌≡◌, refl, false, Option, none, some, List, [], ◌∷◌, ◌==◌, nat_eq, string_eq, option_eq,
  contains, any,
}
use pf.Grant.{Grant, Boundary, Role}
use pf.Naming.References.{referenced_ids}
use pf.Naming.References.Laws.{referenced_ids-names}
use pf.Naming.Names.{names_identity, without_identity, names_bastion, names_tag}
use pf.Naming.Unchanged.{DecidesAlike}
use pf.Naming.Store.{Store, role, boundary}
use pf.Naming.Store.Run.{run}
use pf.Naming.Store.Found.{IsKeyed}
use pf.Naming.Remove.{
  find_identity, remove_identity, find_bastion, remove_bastion, find_tag, remove_tag,
}
use pf.Naming.Remove.Laws.{
  find-remove_nobody, remove_tag-DecidesAlike, remove_identity-DecidesAlike,
}

-- Root for an hour: on one host, or on the hosts with some tags.
abbrev root : Option ℕ → Option (List ℕ) → Grant
root id tags = Grant.ssh (record {
  filter = record { id = id; tag_id_list = tags; boundary_id_list = none };
  permission = record {
    username_list = some ("root" ∷ []);
    capability_list = none;
    command_list = none;
    max_session_ttl_s = some 3600;
  };
})

-- On host 7, on the hosts with tags 1 and 2, and on the hosts with tag 1.
abbrev grants : List Grant
grants = root (some 7) none ∷ root none (some (1 ∷ 2 ∷ [])) ∷ root none (some (1 ∷ [])) ∷ []

abbrev operators : Role
operators = record {
  id = 1;
  name = "operators";
  description = "";
  grant_list = grants;
  member_id_list = [];
}

abbrev ceiling : Boundary
ceiling = record {
  id = 1;
  name = "ceiling";
  description = "";
  ceiling_list = some grants;
  denied_list = root (some 8) none ∷ [];
}

without_identity_run :
    without_identity grants 7 ≡ root none (some (1 ∷ 2 ∷ [])) ∷ root none (some (1 ∷ [])) ∷ []
unfolding without_identity names_identity nat_eq option_eq
without_identity_run = refl

referenced_ids-names_example :
    (contains (referenced_ids grants).identity 7 ≡ any (λ g. names_identity g 7) grants)
    × (contains (referenced_ids grants).bastion 7 ≡ any (λ g. names_bastion g 7) grants)
    × (contains (referenced_ids grants).tag 7 ≡ any (λ g. names_tag g 7) grants)
referenced_ids-names_example = referenced_ids-names 7 grants

-- Host 7 has tag 1 and no tag 2.
lacks : contains {A = ℕ} (1 ∷ []) 2 ≡ false
unfolding nat_eq
lacks = refl

abbrev store : Store
store = record { roles = operators ∷ []; boundaries = ceiling ∷ []; entries = [] }

store-IsKeyed : IsKeyed store
unfolding nat_eq
store-IsKeyed = record { roles_keyed = refl; boundaries_keyed = refl }

remove_identity_run :
    ((remove_identity store 7).1 ≡ role 1 "operators" ∷ boundary 1 "ceiling" ∷ [])
    × ((remove_identity store 9).0 ≡ store)
    × (find_identity store 8 ≡ boundary 1 "ceiling" ∷ [])
unfolding run names_identity option_eq nat_eq find_identity remove_identity without_identity
remove_identity_run = (refl, refl, refl)

find-remove_nobody_example :
    (find_identity (remove_identity store 7).0 7 ≡ [])
    × (find_bastion (remove_bastion store 7).0 7 ≡ [])
    × (find_tag (remove_tag store 7).0 7 ≡ [])
find-remove_nobody_example = find-remove_nobody store 7 store-IsKeyed

remove_tag-DecidesAlike_example :
    DecidesAlike 7
      (1 ∷ [])
      []
      (ceiling ∷ [])
      (operators ∷ [])
      (remove_tag store 2).0.boundaries
      (remove_tag store 2).0.roles
remove_tag-DecidesAlike_example = remove_tag-DecidesAlike 7 (1 ∷ []) [] store 2 store-IsKeyed lacks

other : (◌==◌ {A = ℕ} 9 7) ≡ false
unfolding nat_eq
other = refl

remove_identity-DecidesAlike_example :
    DecidesAlike 9
      (1 ∷ [])
      []
      (ceiling ∷ [])
      (operators ∷ [])
      (remove_identity store 7).0.boundaries
      (remove_identity store 7).0.roles
remove_identity-DecidesAlike_example =
    remove_identity-DecidesAlike 9 (1 ∷ []) [] store 7 store-IsKeyed other
