-- ===== src/Checker/Tests.antt =====
-- Runs of the checkers on a small policy, and the theorems at concrete inputs.
use pf.Base.{
  ℕ, ◌≡◌, refl, ◌↔◌, Bool, true, false, none, some, [], ◌∷◌, string_eq, nat_eq, option_eq,
}
use pf.Grant.{Grant, Boundary, Role, IdentityGrant, TagGrant}
use pf.Checker.{Checker, can, list_can, refuses, fits, fitting}
use pf.Checker.Policy.{Permits, can_iff}
use pf.Checker.TagChecker
use pf.Checker.RoleChecker
use pf.Checker.LiveChecker
use pf.Checker.IdentityChecker

-- Everything that a run computes with.
run : Unit {0}
unfolding can list_can refuses fits fitting TagChecker.init TagChecker.can_read
    TagChecker.can_delete RoleChecker.init RoleChecker.can_update IdentityChecker.init
    IdentityChecker.can_create IdentityChecker.can_invite LiveChecker.init LiveChecker.can_read
    string_eq nat_eq option_eq
run = tt

abbrev tag_reader : Grant
tag_reader = Grant.tag (record {
  filter = record { id = none };
  permission = record { create = false; read = true; delete = false };
})

abbrev tag_5 : Grant
tag_5 = Grant.tag (record {
  filter = record { id = some 5 };
  permission = record { create = true; read = true; delete = true };
})

abbrev role_names : Grant
role_names = Grant.role (record {
  filter = record { id = none };
  permission = record {
    create = false;
    read = true;
    delete = false;
    update =
        some (record { name = true; description = false; grant_list = false; member_list = false });
  };
})

-- Identities may be created with tags 1 and 2, and must have boundary 3.
abbrev creator : Grant
creator = Grant.identity (record {
  filter = record { id = none; tag_id_list = none; boundary_id_list = none };
  permission = record {
    create = some (record {
      allowed = true;
      allowed_tag_id_list = some (1 ∷ 2 ∷ []);
      required_boundary_id_list = some (3 ∷ []);
    });
    read = true;
    update = none;
    delete = false;
    add_tag_id_list = none;
    del_tag_id_list = some [];
    invite_list = some ("email" ∷ []);
  };
})

abbrev staff : Role
staff = record {
  id = 1;
  name = "staff";
  description = "";
  grant_list = tag_reader ∷ tag_5 ∷ role_names ∷ creator ∷ [];
  member_id_list = [];
}

-- Tag 5 may not be touched, and nothing but tags and identities is in reach.
abbrev fence : Boundary
fence = record {
  id = 1;
  name = "fence";
  description = "";
  ceiling_list = some (tag_reader ∷ creator ∷ []);
  denied_list = tag_5 ∷ [];
}

abbrev open_boundary : Boundary
open_boundary = record {
  id = 2;
  name = "open";
  description = "";
  ceiling_list = none;
  denied_list = [];
}

abbrev tags_of : ℕ → Checker TagGrant
tags_of id = TagChecker.init (fence ∷ []) (staff ∷ []) (some id)

abbrev identities : Checker IdentityGrant
identities = IdentityChecker.init (fence ∷ []) (staff ∷ []) none none none

can_tests :
    (TagChecker.can_read (tags_of 4) ≡ true)
    × (TagChecker.can_read (tags_of 5) ≡ false)
    × (TagChecker.can_delete (TagChecker.init (open_boundary ∷ []) (staff ∷ []) (some 5)) ≡ true)
    × (TagChecker.can_delete (TagChecker.init (open_boundary ∷ []) (staff ∷ []) (some 4)) ≡ false)
    × (RoleChecker.can_update (RoleChecker.init (open_boundary ∷ []) (staff ∷ []) none) "name"
        ≡ some true)
    × (RoleChecker.can_update (RoleChecker.init (open_boundary ∷ []) (staff ∷ []) none) "grant_list"
        ≡ some false)
    × (RoleChecker.can_update (RoleChecker.init [] (staff ∷ []) none) "id" ≡ none)
    × (RoleChecker.can_update (RoleChecker.init (fence ∷ []) (staff ∷ []) none) "name" ≡ some false)
    × (IdentityChecker.can_create identities (2 ∷ []) (3 ∷ 4 ∷ []) ≡ true)
    × (IdentityChecker.can_create identities (2 ∷ 9 ∷ []) (3 ∷ []) ≡ false)
    × (IdentityChecker.can_create identities [] [] ≡ false)
    × (IdentityChecker.can_invite identities "email" ≡ true)
    × (IdentityChecker.can_invite identities "link" ≡ false)
unfolding run
can_tests = (refl, refl, refl, refl, refl, refl, refl, refl, refl, refl, refl, refl, refl)

abbrev reads : TagGrant → Bool
reads g = g.permission.read

can_iff_example : (can (tags_of 4) reads ≡ true) ↔ Permits (tags_of 4) reads
can_iff_example = can_iff (tags_of 4) reads

-- The boundary goes away, and the role is there twice.
