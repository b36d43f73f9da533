-- ===== src/Identities/Creation.antt =====
-- What is read of identities after a creation.
use mathlib.Core.Path.{ap₂}
use pf.Base.{
  Bool, ◌⊎◌, true, not, ◌&&◌, ◌||◌, distinct, ℕ, String, false, if◌then◌else◌, ◌==◌, eq_of_==,
  ==_refl, nat_eq, contains, map, Option, some, List, [], ◌∷◌, ◌++◌, append_nil, ◌≡◌, refl, sym, ap,
  ◌∙◌, arith, Bool-cases, inl, inr,
}
use pf.Http.{ok, crash, ◌>>=◌}
use pf.Identities.{
  IdentityRow, Tables, linked, links, with_boundaries, read_row, read_rows, selected, read_all,
  first, read_one, name_used, username_used, create, identity_create,
}
use pf.Identities.Links.{insert_links_empty, linked-append, linked-links, read_rows_congr}

selected-append :
    (j : ℕ) (xs ys : List IdentityRow)
    → selected (j ∷ []) (xs ++ ys) ≡ selected (j ∷ []) xs ++ selected (j ∷ []) ys
selected-append j [] ys = refl
selected-append j (x ∷ xs) ys = ground (arith, selected-append j xs ys)

selected_none :
    (j : ℕ) (rows : List IdentityRow)
    → contains (map (λ i. i.id) rows) j ≡ false
    → selected (j ∷ []) rows ≡ []
selected_none j [] h = refl
selected_none j (r ∷ rs) h = ground (arith, selected_none j rs, eq_of_== j r.id, ==_refl j)

-- What `create` makes of the tables, if no constraint is violated.
unfoldable create_rows : ℕ → ℕ → String → List ℕ → List ℕ → Option String → Tables → Tables
create_rows id now name boundary_id_list tag_id_list unix_username t = record t {
  identities =
      t.identities
      ++ (record { id = id; name = name; created_at = now; unix_username = unix_username } ∷ []);
  identity_boundaries = t.identity_boundaries ++ links id boundary_id_list;
  identity_tags = t.identity_tags ++ links id tag_id_list;
  entries =
      t.entries
      ++ (identity_create (record {
        id = id;
        name = name;
        tag_id_list = tag_id_list;
        boundary_id_list = boundary_id_list;
        unix_username = unix_username;
      })
          ∷ []);
}

module _ (id now : ℕ) (name : String) (bs tags : List ℕ) (username : Option String)
    (t : Tables) where
  linked-create_rows-tags :
      (j : ℕ)
      → linked j (create_rows id now name bs tags username t).identity_tags
        ≡ linked j t.identity_tags ++ (if id == j then tags else [])
  unfolding create_rows
  linked-create_rows-tags j =
      linked-append j t.identity_tags (links id tags)
      ∙ ap (λ l. linked j t.identity_tags ++ l) (linked-links j id tags)

  linked-create_rows-boundaries :
      (j : ℕ)
      → linked j (create_rows id now name bs tags username t).identity_boundaries
        ≡ linked j t.identity_boundaries ++ (if id == j then bs else [])
  unfolding create_rows
  linked-create_rows-boundaries j =
      linked-append j t.identity_boundaries (links id bs)
      ∙ ap (λ l. linked j t.identity_boundaries ++ l) (linked-links j id bs)

  abbrev new_row : IdentityRow
  new_row = record { id = id; name = name; created_at = now; unix_username = username }

  identities-create_rows :
      (create_rows id now name bs tags username t).identities ≡ t.identities ++ (new_row ∷ [])
  unfolding create_rows
  identities-create_rows = refl

  selected-create_rows :
      (j : ℕ)
      → selected (j ∷ []) (create_rows id now name bs tags username t).identities
        ≡ selected (j ∷ []) t.identities ++ (if id == j then new_row ∷ [] else [])
  selected-create_rows j =
      ap (selected (j ∷ [])) identities-create_rows
      ∙ selected-append j t.identities (new_row ∷ [])
      ∙ ground (arith, eq_of_== id j, eq_of_== j id)

  new_row_read :
      (b : ℕ) (rest : List ℕ)
      → bs ≡ b ∷ rest
      → linked id t.identity_boundaries ≡ []
      → linked id t.identity_tags ≡ []
      → read_rows (create_rows id now name bs tags username t) (new_row ∷ [])
        ≡ ok (
            record {
              id = id;
              name = name;
              tag_id_list = tags;
              boundary_id_list = b ∷ rest;
              unix_username = username;
            }
            ∷ [])
  unfolding read_rows read_row
  new_row_read b rest some_boundary no_boundaries no_tags =
      let t' = create_rows id now name bs tags username t in
      let own_tags : linked id t'.identity_tags ≡ tags =
        linked-create_rows-tags id ∙ rw (no_tags, ==_refl id) refl in
      let own_boundaries : linked id t'.identity_boundaries ≡ b ∷ rest =
        linked-create_rows-boundaries id ∙ rw (no_boundaries, ==_refl id) some_boundary in
      ap (λ m. m >>= λ one. ok (one ∷ [])) (ap₂ (with_boundaries new_row) own_tags own_boundaries)

read_one-create_rows :
    (id now j : ℕ) (name : String) (b : ℕ) (bs tags : List ℕ) (username : Option String)
    (t : Tables)
    → contains (map (λ i. i.id) t.identities) id ≡ false
    → linked id t.identity_boundaries ≡ []
    → linked id t.identity_tags ≡ []
    → read_one (create_rows id now name (b ∷ bs) tags username t) j ≡ (
        if id == j
        then ok (
            some (record {
              id = id;
              name = name;
              tag_id_list = tags;
              boundary_id_list = b ∷ bs;
              unix_username = username;
            }))
        else read_one t j)
unfolding read_one read_all
read_one-create_rows id now j name b bs tags username t fresh no_boundaries no_tags =
    elim (Bool-cases (id == j)) [
      | inl e ↦
          let q : j ≡ id = sym (eq_of_== id j e) in
          let one : selected (j ∷ []) (create_rows id now name (b ∷ bs) tags username t).identities
              ≡ new_row id now name (b ∷ bs) tags username t ∷ [] =
            selected-create_rows id now name (b ∷ bs) tags username t j
            ∙ rw
                (
                  e,
                  selected_none j t.identities
                      (ap (contains (map (λ i. i.id) t.identities)) q ∙ fresh),
                )
                refl in
          ap
            (λ rows. read_rows (create_rows id now name (b ∷ bs) tags username t) rows >>= λ is.
              ok (first is))
            one
          ∙ ap (λ m. m >>= λ is. ok (first is))
              (new_row_read id now name (b ∷ bs) tags username t b bs refl no_boundaries no_tags)
          ∙ rw e refl
      | inr e ↦
          let same : selected (j ∷ []) (create_rows id now name (b ∷ bs) tags username t).identities
              ≡ selected (j ∷ []) t.identities =
            selected-create_rows id now name (b ∷ bs) tags username t j
            ∙ rw e (append_nil (selected (j ∷ []) t.identities)) in
          ap
            (λ rows. read_rows (create_rows id now name (b ∷ bs) tags username t) rows >>= λ is.
              ok (first is))
            same
          ∙ ap (λ m. m >>= λ is. ok (first is))
              (read_rows_congr t (create_rows id now name (b ∷ bs) tags username t) j t.identities
                (linked-create_rows-tags id now name (b ∷ bs) tags username t j
                  ∙ rw e (append_nil (linked j t.identity_tags)))
                (linked-create_rows-boundaries id now name (b ∷ bs) tags username t j
                  ∙ rw e (append_nil (linked j t.identity_boundaries))))
          ∙ rw e refl
    ]

-- The name and the username are new, and no boundary and no tag is given twice.
abbrev pub create_fits : ℕ → String → List ℕ → List ℕ → Option String → Tables → Bool
create_fits id name bs tags username t =
    not (name_used id name t.identities || username_used id username t.identities)
    && distinct bs
    && distinct tags

create-create_rows :
    (id now : ℕ) (name : String) (bs tags : List ℕ) (username : Option String) (t : Tables)
    → linked id t.identity_boundaries ≡ []
    → linked id t.identity_tags ≡ []
    → create id now name bs tags username t ≡ (
        if create_fits id name bs tags username t
        then ok (create_rows id now name bs tags username t)
        else crash)
unfolding create create_rows
create-create_rows id now name bs tags username t no_boundaries no_tags = ground (
  arith,
  insert_links_empty id bs t.identity_boundaries no_boundaries,
  insert_links_empty id tags t.identity_tags no_tags,
)

-- With an id that is new: where the name or the username is used, or a boundary or a tag is given
-- twice, a creation fails. Otherwise it succeeds, with a boundary at least; the new identity is read as
-- it was created, and every other identity is read as before.
pub read_one-create :
    (id now j : ℕ) (name : String) (b : ℕ) (bs tags : List ℕ) (username : Option String)
    (t : Tables)
    → contains (map (λ i. i.id) t.identities) id ≡ false
    → linked id t.identity_boundaries ≡ []
    → linked id t.identity_tags ≡ []
    → ((create_fits id name (b ∷ bs) tags username t ≡ false)
        × (create id now name (b ∷ bs) tags username t ≡ crash))
      ⊎ ((create_fits id name (b ∷ bs) tags username t ≡ true)
          × (t' : Tables) × (create id now name (b ∷ bs) tags username t ≡ ok t')
          × (read_one t' j ≡ (
              if id == j
              then ok (
                  some (record {
                    id = id;
                    name = name;
                    tag_id_list = tags;
                    boundary_id_list = b ∷ bs;
                    unix_username = username;
                  }))
              else read_one t j)))
read_one-create id now j name b bs tags username t fresh no_boundaries no_tags =
    let e = create-create_rows id now name (b ∷ bs) tags username t no_boundaries no_tags in
    elim (Bool-cases (create_fits id name (b ∷ bs) tags username t)) [
      | inl fits ↦ inr (
        fits,
        create_rows id now name (b ∷ bs) tags username t,
        e ∙ rw fits refl,
        read_one-create_rows id now j name b bs tags username t fresh no_boundaries no_tags,
      )
      | inr clash ↦ inl (clash, e ∙ rw clash refl)
    ]
