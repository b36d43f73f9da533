-- ===== src/Identities/Updating.antt =====
-- What is read of identities after an update.
use mathlib.Core.Option
use mathlib.Core.Path.{ap₂}
use pf.Base.{
  Bool, ◌⊎◌, ◌&&◌, row_of, distinct, all, ℕ, true, false, not, if◌then◌else◌, ◌==◌, eq_of_==,
  ==_refl, nat_eq, contains, filter, map, get_or, List, [], ◌∷◌, ◌++◌, append_nil, ◌≡◌, refl, sym,
  ap, ◌∙◌, arith, Bool-cases, inl, inr,
}
use pf.Http.{Outcome, ok, crash, problem, ◌>>=◌}
use pf.Certificate.Tables.{Identity}
use pf.Identities.{
  IdentityRow, Tables, linked, links, with_boundaries, read_row, read_rows, selected, read_all,
  first, read_one, IdentityUpdate, set_fields, fields_used, field_entries, tag_entry,
  identity_add_tags, identity_remove_tags, without_tags, update,
}
use pf.Identities.Links.{
  insert_links_lem, linked-append, linked-links, linked-without_tags, read_rows_congr,
}

-- What `update` makes of the tables, if no constraint is violated.
unfoldable update_rows : ℕ → IdentityUpdate → Tables → Tables
update_rows id u t =
    let added = get_or u.added_tag_id_list [] in
    let deleted = get_or u.deleted_tag_id_list [] in
    record t {
      identities = map (set_fields id u) t.identities;
      identity_tags = without_tags id deleted (t.identity_tags ++ links id added);
      entries =
          t.entries
          ++ (field_entries id u (row_of (λ i. i.id) id t.identities)
              ++ (tag_entry (identity_add_tags id) added
                  ++ tag_entry (identity_remove_tags id) deleted));
    }

-- What `update` makes of an identity.
abbrev pub revise : IdentityUpdate → Identity → Identity
revise u i = record i {
  name = get_or u.name i.name;
  unix_username = get_or u.unix_username i.unix_username;
  tag_id_list =
      filter (λ t. not (contains (get_or u.deleted_tag_id_list []) t))
        (i.tag_id_list ++ get_or u.added_tag_id_list []);
}

-- Deleted tags are taken from the old ones and from the added ones.
linked-update_rows :
    (id j : ℕ) (u : IdentityUpdate) (t : Tables)
    → linked j (update_rows id u t).identity_tags ≡ (
        if id == j
        then filter
            (λ t. not (contains (get_or u.deleted_tag_id_list []) t))
            (linked j t.identity_tags ++ get_or u.added_tag_id_list [])
        else linked j t.identity_tags)
unfolding update_rows
linked-update_rows id j u t =
    let added = get_or u.added_tag_id_list [] in
    let deleted = get_or u.deleted_tag_id_list [] in
    linked-without_tags j id deleted (t.identity_tags ++ links id added)
    ∙ ground (
      arith,
      linked-append j t.identity_tags (links id added),
      linked-links j id added,
      append_nil (linked j t.identity_tags),
    )

selected-set_fields :
    (id j : ℕ) (u : IdentityUpdate) (rows : List IdentityRow)
    → (id == j) ≡ false
    → selected (j ∷ []) (map (set_fields id u) rows) ≡ selected (j ∷ []) rows
selected-set_fields id j u [] h = refl
selected-set_fields id j u (r ∷ rs) h = elim (Bool-cases (r.id == id)) [
  | inl e ↦ ground (arith, selected-set_fields id j u rs h)
  | inr e ↦ rw e (ground (arith, selected-set_fields id j u rs h))
]

with_boundaries-revise :
    (u : IdentityUpdate) (i : IdentityRow) (tags bs : List ℕ)
    → with_boundaries
        (record i {
          name = get_or u.name i.name;
          unix_username = get_or u.unix_username i.unix_username;
        })
        (filter
          (λ t. not (contains (get_or u.deleted_tag_id_list []) t))
          (tags ++ get_or u.added_tag_id_list []))
        bs
      ≡ (with_boundaries i tags bs >>= λ i. ok (revise u i))
with_boundaries-revise u i tags [] = refl
with_boundaries-revise u i tags (b ∷ bs) = refl

cons_revised :
    (f : Identity → Identity) (m : Outcome Identity) (rest : Outcome (List Identity))
    → ((m >>= λ i. ok (f i)) >>= λ one. (rest >>= λ is. ok (map f is)) >>= λ is. ok (one ∷ is))
      ≡ ((m >>= λ one. rest >>= λ is. ok (one ∷ is)) >>= λ is. ok (map f is))
cons_revised f crash rest = refl
cons_revised f (problem p) rest = refl
cons_revised f (ok i) crash = refl
cons_revised f (ok i) (problem p) = refl
cons_revised f (ok i) (ok is) = refl

boundaries-update_rows :
    (id : ℕ) (u : IdentityUpdate) (t : Tables)
    → (update_rows id u t).identity_boundaries ≡ t.identity_boundaries
unfolding update_rows
boundaries-update_rows id u t = refl

identities-update_rows :
    (id : ℕ) (u : IdentityUpdate) (t : Tables)
    → (update_rows id u t).identities ≡ map (set_fields id u) t.identities
unfolding update_rows
identities-update_rows id u t = refl

module _ (id : ℕ) (u : IdentityUpdate) (t : Tables) where
  revised_row :
      (r : IdentityRow)
      → (r.id == id) ≡ true
      → read_row (update_rows id u t) (set_fields id u r) ≡ (read_row t r >>= λ i. ok (revise u i))
  unfolding read_row
  revised_row r e =
      let q : id ≡ r.id = sym (eq_of_== r.id id e) in
      let tags = linked-update_rows id r.id u t ∙ rw (ap (λ k. k == r.id) q, ==_refl r.id) refl in
      rw e (
        ap₂
          (with_boundaries (record r {
            name = get_or u.name r.name;
            unix_username = get_or u.unix_username r.unix_username;
          }))
          tags (ap (linked r.id) (boundaries-update_rows id u t))
        ∙ with_boundaries-revise u r (linked r.id t.identity_tags)
            (linked r.id t.identity_boundaries))

  revised_rows :
      (rows : List IdentityRow)
      → read_rows (update_rows id u t) (selected (id ∷ []) (map (set_fields id u) rows))
        ≡ (read_rows t (selected (id ∷ []) rows) >>= λ is. ok (map (revise u) is))
  unfolding read_rows
  revised_rows [] = refl
  revised_rows (r ∷ rs) = elim (Bool-cases (r.id == id)) [
    | inr e ↦ let f : (id == r.id) ≡ false = ground arith in rw (e, f) (revised_rows rs)
    | inl e ↦
        let g : (id == r.id) ≡ true = ground (arith, eq_of_== r.id id e, ==_refl r.id) in
        let f : (id == (set_fields id u r).id) ≡ true = rw e g in
        rw (f, g)
          (ap₂ (λ m rest. m >>= λ one. rest >>= λ is. ok (one ∷ is)) (revised_row r e)
              (revised_rows rs)
            ∙ cons_revised (revise u) (read_row t r) (read_rows t (selected (id ∷ []) rs)))
  ]

first_revised :
    (f : Identity → Identity) (m : Outcome (List Identity))
    → ((m >>= λ is. ok (map f is)) >>= λ is. ok (first is))
      ≡ ((m >>= λ is. ok (first is)) >>= λ o. ok (Option.map f o))
first_revised f crash = refl
first_revised f (problem p) = refl
first_revised f (ok []) = refl
first_revised f (ok (i ∷ is)) = refl

read_one-update_rows :
    (id j : ℕ) (u : IdentityUpdate) (t : Tables)
    → read_one (update_rows id u t) j
      ≡ (if id == j then (read_one t j >>= λ o. ok (Option.map (revise u) o)) else read_one t j)
unfolding read_one read_all
read_one-update_rows id j u t = elim (Bool-cases (id == j)) [
  | inl e ↦ rw e (
      ap
        (λ k.
          read_rows (update_rows id u t) (selected (k ∷ []) (update_rows id u t).identities)
          >>= λ is. ok (first is))
        (sym (eq_of_== id j e))
      ∙ ap
          (λ rows. read_rows (update_rows id u t) (selected (id ∷ []) rows) >>= λ is. ok (first is))
          (identities-update_rows id u t)
      ∙ ap (λ m. m >>= λ is. ok (first is)) (revised_rows id u t t.identities)
      ∙ first_revised (revise u) (read_rows t (selected (id ∷ []) t.identities))
      ∙ ap
          (λ k. (read_rows t (selected (k ∷ []) t.identities) >>= λ is. ok (first is)) >>= λ o.
            ok (Option.map (revise u) o))
          (eq_of_== id j e))
  | inr e ↦ rw e (
      ap (λ rows. read_rows (update_rows id u t) rows >>= λ is. ok (first is))
        (ap (selected (j ∷ [])) (identities-update_rows id u t)
          ∙ selected-set_fields id j u t.identities e)
      ∙ ap (λ m. m >>= λ is. ok (first is))
          (read_rows_congr t (update_rows id u t) j t.identities
            (linked-update_rows id j u t ∙ rw e refl)
            (ap (linked j) (boundaries-update_rows id u t))))
]

-- No other row has the fields, no tag is added twice, and none is added that the identity has.
abbrev pub update_fits : ℕ → IdentityUpdate → Tables → Bool
update_fits id u t =
    let added = get_or u.added_tag_id_list [] in
    not (fields_used id u t.identities)
    && (distinct added && all (λ o. not (contains (linked id t.identity_tags) o)) added)

update-update_rows :
    (id : ℕ) (u : IdentityUpdate) (t : Tables)
    → update id u t ≡ (if update_fits id u t then ok (update_rows id u t) else crash)
unfolding update update_rows
update-update_rows id u t =
    ground (arith, insert_links_lem id (get_or u.added_tag_id_list []) t.identity_tags)

-- Where another identity has the name or the username, a tag is added twice, or one is added that the
-- identity has, an update fails. Otherwise it succeeds, and changes what is read of its identity, the
-- given fields and the tags, where deleted tags are taken from the added ones too, and nothing of what
-- is read of the others.
pub read_one-update :
    (id j : ℕ) (u : IdentityUpdate) (t : Tables)
    → ((update_fits id u t ≡ false) × (update id u t ≡ crash))
      ⊎ ((update_fits id u t ≡ true)
          × (t' : Tables) × (update id u t ≡ ok t')
          × (read_one t' j ≡ (
              if id == j
              then (read_one t j >>= λ o. ok (Option.map (revise u) o))
              else read_one t j)))
read_one-update id j u t = elim (Bool-cases (update_fits id u t)) [
  | inl fits ↦ inr (
    fits,
    update_rows id u t,
    update-update_rows id u t ∙ rw fits refl,
    read_one-update_rows id j u t,
  )
  | inr clash ↦ inl (clash, update-update_rows id u t ∙ rw clash refl)
]
