-- ===== src/Identities.antt =====
-- Identities: src/provablyfine/api/model/identity.py, over the tables that it reads and writes. Of an
-- audit entry the time, the author, the cause and the references are left out. A table of the
-- database is a list of rows; what a query selects comes in the order of the table.
pub mod Snapshot
mod Links
pub mod Deleting
pub mod Updating
pub mod Creation
mod Tests
use pf.Base.{
  ℕ, String, Bool, true, false, any, not, ◌&&◌, ◌||◌, string_eq, option_eq, if◌then◌else◌, ◌==◌,
  nat_eq, contains, filter, map, get_or, row_of, Option, none, some, List, [], ◌∷◌, ◌++◌,
}
use mathlib.Core.Option
use pf.Http.{Outcome, ok, crash, ◌>>=◌}
use pf.Certificate.Tables.{Identity}
use pf.Identities.Snapshot.{
  Link, SessionRow, InvitationRow, AccountKeyRow, ConnectionRow, Deletion, others, snapshot_of,
}

pub record IdentityRow : Type 0 where
  pub id : ℕ
  pub name : String
  pub created_at : ℕ
  pub unix_username : Option String

-- The entries that the module writes, with the new value and the old one for an update.
pub data Entry : Type 0 where
  identity_create : Identity → Entry
  identity_update_name : ℕ → String → Option String → Entry
  identity_update_unix_username : ℕ → Option String → Option String → Entry
  identity_add_tags identity_remove_tags : ℕ → List ℕ → Entry
  identity_delete : ℕ → Deletion → Entry

pub record Tables : Type 0 where
  pub identities : List IdentityRow
  pub identity_boundaries : List Link
  pub identity_tags : List Link
  pub role_members : List Link
  pub session_keys : List SessionRow
  pub invitation_keys : List InvitationRow
  pub account_keys : List AccountKeyRow
  pub connections : List ConnectionRow
  pub entries : List Entry

-- The ids that an identity is linked with.
abbrev pub linked : ℕ → List Link → List ℕ
linked id [] = []
linked id (l ∷ ls) =
    let rest = linked id ls in if l.identity_id == id then l.other_id ∷ rest else rest

abbrev pub links : ℕ → List ℕ → List Link
links id [] = []
links id (o ∷ os) = record { identity_id = id; other_id = o } ∷ links id os

-- `boundary_ids_by_identity_id[i.id]` is a KeyError for an identity without a boundary.
abbrev pub with_boundaries : IdentityRow → List ℕ → List ℕ → Outcome Identity
with_boundaries i tags [] = crash
with_boundaries i tags (b ∷ bs) = ok (record {
  id = i.id;
  name = i.name;
  tag_id_list = tags;
  boundary_id_list = b ∷ bs;
  unix_username = i.unix_username;
})

unfoldable pub read_row : Tables → IdentityRow → Outcome Identity
read_row t i = with_boundaries i (linked i.id t.identity_tags) (linked i.id t.identity_boundaries)

unfoldable pub read_rows : Tables → List IdentityRow → Outcome (List Identity)
read_rows t [] = ok []
read_rows t (i ∷ is) = do one ← read_row t i; rest ← read_rows t is; ok (one ∷ rest)

abbrev pub selected : List ℕ → List IdentityRow → List IdentityRow
selected ids rows = filter (λ i. contains ids i.id) rows

-- `read_all(id=ids)`
unfoldable pub read_all : Tables → List ℕ → Outcome (List Identity)
read_all t ids = read_rows t (selected ids t.identities)

abbrev pub first : List Identity → Option Identity
first [] = none
first (i ∷ is) = some i

-- `read_one(id=id)`
unfoldable pub read_one : Tables → ℕ → Outcome (Option Identity)
read_one t id = do is ← read_all t (id ∷ []); ok (first is)

-- Whether another row has the name, or the username: src/provablyfine/api/app_db.py makes both
-- unique, where NULL is no value.
abbrev pub name_used : ℕ → String → List IdentityRow → Bool
name_used id name rows = any (λ i. not (i.id == id) && i.name == name) rows

abbrev pub username_used : ℕ → Option String → List IdentityRow → Bool
username_used id none rows = false
username_used id (some u) rows = any (λ i. not (i.id == id) && i.unix_username == some u) rows

-- The links of an identity, row by row: a link that is there is an IntegrityError.
unfoldable pub insert_links : ℕ → List ℕ → List Link → Outcome (List Link)
insert_links id [] ls = ok ls
insert_links id (o ∷ os) ls =
    let rest = insert_links id os (ls ++ (record { identity_id = id; other_id = o } ∷ [])) in
    if contains (linked id ls) o then crash else rest

-- `create`; the database gives the id. After an IntegrityError nothing is kept.
unfoldable pub create : ℕ → ℕ → String → List ℕ → List ℕ → Option String → Tables → Outcome Tables
unfolding insert_links
create id now name boundary_id_list tag_id_list unix_username t =
    if name_used id name t.identities || username_used id unix_username t.identities
    then crash
    else (do
      boundaries ← insert_links id boundary_id_list t.identity_boundaries
      tags ← insert_links id tag_id_list t.identity_tags
      ok (record t {
        identities =
            t.identities
            ++ (record { id = id; name = name; created_at = now; unix_username = unix_username }
                ∷ []);
        identity_boundaries = boundaries;
        identity_tags = tags;
        entries =
            t.entries
            ++ (identity_create (record {
              id = id;
              name = name;
              tag_id_list = tag_id_list;
              boundary_id_list = boundary_id_list;
              unix_username = unix_username;
            })
                ∷ []);
      }))

-- The deletions of `delete`, in its order, with the entry.
unfoldable pub delete_rows : ℕ → Deletion → Tables → Tables
delete_rows id d t = record t {
  identity_boundaries = others (λ l. l.identity_id) id t.identity_boundaries;
  identity_tags = others (λ l. l.identity_id) id t.identity_tags;
  account_keys = others (λ k. k.identity_id) id t.account_keys;
  session_keys = others (λ k. k.identity_id) id t.session_keys;
  invitation_keys = others (λ k. k.identity_id) id t.invitation_keys;
  role_members = others (λ l. l.identity_id) id t.role_members;
  connections = others (λ c. c.identity_id) id t.connections;
  identities = others (λ i. i.id) id t.identities;
  entries = t.entries ++ (identity_delete id d ∷ []);
}

abbrev pub delete_read : ℕ → ℕ → Tables → Option Identity → Outcome Tables
delete_read now id t none = crash
delete_read now id t (some identity) = ok (
    delete_rows id
      (snapshot_of now identity t.role_members t.account_keys t.invitation_keys t.session_keys
        t.connections)
      t)

-- `delete`; the assertion that the identity is there is an exception.
unfoldable pub delete : ℕ → ℕ → Tables → Outcome Tables
delete now id t = do identity ← read_one t id; delete_read now id t identity

-- The arguments of `update`, `none` for `UNSET`.
pub record IdentityUpdate : Type 0 where
  pub name : Option String
  pub unix_username : Option (Option String)
  pub added_tag_id_list : Option (List ℕ)
  pub deleted_tag_id_list : Option (List ℕ)

abbrev pub set_fields : ℕ → IdentityUpdate → IdentityRow → IdentityRow
set_fields id u i =
    if i.id == id
    then record i {
      name = get_or u.name i.name;
      unix_username = get_or u.unix_username i.unix_username;
    }
    else i

abbrev pub old_username : Option IdentityRow → Option String
old_username none = none
old_username (some i) = i.unix_username

-- The entries about the fields.
abbrev pub field_entries : ℕ → IdentityUpdate → Option IdentityRow → List Entry
field_entries id u old =
    elim u.name [
      | none ↦ []
      | some n ↦ identity_update_name id n (Option.map (λ i. i.name) old) ∷ []
    ]
    ++ elim u.unix_username [
      | none ↦ []
      | some n ↦ identity_update_unix_username id n (old_username old) ∷ []
    ]

-- No entry for an empty list.
abbrev pub tag_entry : (List ℕ → Entry) → List ℕ → List Entry
tag_entry entry [] = []
tag_entry entry (t ∷ ts) = entry (t ∷ ts) ∷ []

abbrev pub without_tags : ℕ → List ℕ → List Link → List Link
without_tags id tags ls = filter (λ l. not (l.identity_id == id && contains tags l.other_id)) ls

-- Whether the fields of the row would be those of another row.
abbrev pub fields_used : ℕ → IdentityUpdate → List IdentityRow → Bool
fields_used id u rows =
    contains (map (λ i. i.id) rows) id
    && (elim u.name [ none ↦ false | some n ↦ name_used id n rows ]
        || elim u.unix_username [ none ↦ false | some n ↦ username_used id n rows ])

-- `update`; after an IntegrityError nothing is kept.
unfoldable pub update : ℕ → IdentityUpdate → Tables → Outcome Tables
unfolding insert_links
update id u t =
    let added = get_or u.added_tag_id_list [] in
    let deleted = get_or u.deleted_tag_id_list [] in
    if fields_used id u t.identities then crash else (do
      tags ← insert_links id added t.identity_tags
      ok (record t {
        identities = map (set_fields id u) t.identities;
        identity_tags = without_tags id deleted tags;
        entries =
            t.entries
            ++ (field_entries id u (row_of (λ i. i.id) id t.identities)
                ++ (tag_entry (identity_add_tags id) added
                    ++ tag_entry (identity_remove_tags id) deleted));
      }))
