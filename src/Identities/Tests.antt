-- ===== src/Identities/Tests.antt =====
-- Runs of the operations on identities, and the claims about them at concrete inputs.
use mathlib.Core.Option
use pf.Base.{
  ◌⊎◌, true, string_eq, option_eq, ℕ, false, if◌then◌else◌, ◌==◌, nat_eq, none, some, [], ◌∷◌, ◌≡◌,
  refl, map, contains,
}
use pf.Http.{ok, crash, ◌>>=◌}
use pf.Identities.Snapshot.{sort_up, sort_down, snapshot_of}
use pf.Identities.{
  Tables, identity_delete, IdentityUpdate, read_row, read_rows, read_all, read_one, insert_links,
  create, delete_rows, delete, update, linked,
}
use pf.Identities.Deleting.{read_one-delete, owns}
use pf.Identities.Updating.{read_one-update, revise, update_fits}
use pf.Identities.Creation.{read_one-create, create_fits}

abbrev empty : Tables
empty = record {
  identities = [];
  identity_boundaries = [];
  identity_tags = [];
  role_members = [];
  session_keys = [];
  invitation_keys = [];
  account_keys = [];
  connections = [];
  entries = [];
}

abbrev two : Tables
two = record empty {
  identities =
      record { id = 1; name = "alice"; created_at = 10; unix_username = none }
      ∷ record { id = 2; name = "bob"; created_at = 20; unix_username = some "bob" }
      ∷ [];
  identity_boundaries =
      record { identity_id = 1; other_id = 5 } ∷ record { identity_id = 2; other_id = 5 } ∷ [];
  identity_tags =
      record { identity_id = 1; other_id = 7 } ∷ record { identity_id = 2; other_id = 8 } ∷ [];
}

read_bob :
    read_one two 2
    ≡ ok (
        some (record {
          id = 2;
          name = "bob";
          tag_id_list = 8 ∷ [];
          boundary_id_list = 5 ∷ [];
          unix_username = some "bob";
        }))
unfolding read_one read_all read_rows read_row nat_eq
read_bob = refl

abbrev without_alice : Tables
without_alice = record empty {
  identities = record { id = 2; name = "bob"; created_at = 20; unix_username = some "bob" } ∷ [];
  identity_boundaries = record { identity_id = 2; other_id = 5 } ∷ [];
  identity_tags = record { identity_id = 2; other_id = 8 } ∷ [];
  entries =
      identity_delete 1 (record {
        name = "alice";
        unix_username = none;
        tag_id_list = 7 ∷ [];
        boundary_id_list = 5 ∷ [];
        role_id_list = [];
        account_keys = [];
        pending_invitations = [];
        session_count = 0;
        last_session_created_at = none;
        live_sessions = [];
        live_sessions_truncated = 0;
        valid_ssh_connections = [];
      })
      ∷ [];
}

delete_alice : delete 100 1 two ≡ ok without_alice
unfolding delete delete_rows snapshot_of sort_up sort_down read_one read_all read_rows read_row
    nat_eq
delete_alice = refl

read_one-delete_example :
    (read_one without_alice 2 ≡ (if ◌==◌ {A = ℕ} 1 2 then ok none else read_one two 2))
    × (owns 1 without_alice ≡ false)
read_one-delete_example = read_one-delete 100 1 2 two without_alice delete_alice

abbrev retag : IdentityUpdate
retag = record {
  name = some "alison";
  unix_username = none;
  added_tag_id_list = some (8 ∷ 9 ∷ []);
  deleted_tag_id_list = some (7 ∷ 9 ∷ []);
}

read_one-update_example :
    ((update_fits 1 retag two ≡ false) × (update 1 retag two ≡ crash))
    ⊎ ((update_fits 1 retag two ≡ true)
        × (t' : Tables) × (update 1 retag two ≡ ok t')
        × (read_one t' 1 ≡ (
            if ◌==◌ {A = ℕ} 1 1
            then (read_one two 1 >>= λ o. ok (Option.map (revise retag) o))
            else read_one two 1)))
read_one-update_example = read_one-update 1 1 retag two

retagged :
    (update 1 retag two >>= λ t. read_one t 1)
    ≡ ok (
        some (record {
          id = 1;
          name = "alison";
          tag_id_list = 8 ∷ [];
          boundary_id_list = 5 ∷ [];
          unix_username = none;
        }))
unfolding update insert_links read_one read_all read_rows read_row nat_eq string_eq option_eq
retagged = refl

-- A name of another identity, a tag that is there, and a tag twice.
clashes :
    (update 1 (record retag { name = some "bob" }) two ≡ crash)
    × (update 1 (record retag { added_tag_id_list = some (7 ∷ []) }) two ≡ crash)
    × (create 3 30 "carol" (5 ∷ []) (7 ∷ 7 ∷ []) none two ≡ crash)
    × (create 3 30 "carol" (5 ∷ []) (7 ∷ []) (some "bob") two ≡ crash)
unfolding update create insert_links nat_eq string_eq option_eq
clashes = (refl, refl, refl, refl)

is_fresh : contains (map (λ i. i.id) two.identities) 3 ≡ false
unfolding nat_eq
is_fresh = refl

no_boundaries : linked 3 two.identity_boundaries ≡ []
unfolding nat_eq
no_boundaries = refl

no_tags : linked 3 two.identity_tags ≡ []
unfolding nat_eq
no_tags = refl

read_one-create_example :
    ((create_fits 3 "carol" (5 ∷ []) (7 ∷ []) none two ≡ false)
      × (create 3 30 "carol" (5 ∷ []) (7 ∷ []) none two ≡ crash))
    ⊎ ((create_fits 3 "carol" (5 ∷ []) (7 ∷ []) none two ≡ true)
        × (t' : Tables) × (create 3 30 "carol" (5 ∷ []) (7 ∷ []) none two ≡ ok t')
        × (read_one t' 3 ≡ (
            if ◌==◌ {A = ℕ} 3 3
            then ok (
                some (record {
                  id = 3;
                  name = "carol";
                  tag_id_list = 7 ∷ [];
                  boundary_id_list = 5 ∷ [];
                  unix_username = none;
                }))
            else read_one two 3)))
read_one-create_example =
    read_one-create 3 30 3 "carol" 5 [] (7 ∷ []) none two is_fresh no_boundaries no_tags
