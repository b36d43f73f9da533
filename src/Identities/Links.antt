-- ===== src/Identities/Links.antt =====
-- What identities are linked with, and what is selected of them, after operations on the tables.
use mathlib.Core.Path.{ap₂}
use pf.Base.{
  true, ◌&&◌, all, distinct, contains-append, append_nil, append_assoc, ==_refl, ℕ, not,
  if◌then◌else◌, ◌==◌, eq_of_==, nat_eq, contains, filter, List, [], ◌∷◌, ◌++◌, ◌≡◌, refl, sym, ap,
  ◌∙◌, arith, Bool-cases, inl, inr,
}
use pf.Http.{ok, crash, ◌>>=◌}
use pf.Identities.Snapshot.{Link, others}
use pf.Identities.{
  insert_links, IdentityRow, Tables, linked, links, with_boundaries, read_row, read_rows, selected,
  without_tags,
}

pub linked-append : (j : ℕ) (xs ys : List Link) → linked j (xs ++ ys) ≡ linked j xs ++ linked j ys
linked-append j [] ys = refl
linked-append j (x ∷ xs) ys = ground (arith, linked-append j xs ys)

pub linked-links : (j id : ℕ) (os : List ℕ) → linked j (links id os) ≡ (if id == j then os else [])
linked-links j id [] = ground arith
linked-links j id (o ∷ os) = ground (arith, linked-links j id os)

pub linked-others :
    (j id : ℕ) (ls : List Link)
    → linked j (others (λ l. l.identity_id) id ls) ≡ (if id == j then [] else linked j ls)
linked-others j id [] = ground arith
linked-others j id (l ∷ ls) = ground (arith, linked-others j id ls)

pub linked-without_tags :
    (j id : ℕ) (tags : List ℕ) (ls : List Link)
    → linked j (without_tags id tags ls)
      ≡ (if id == j then filter (λ t. not (contains tags t)) (linked j ls) else linked j ls)
linked-without_tags j id tags [] = ground arith
linked-without_tags j id tags (l ∷ ls) = ground (arith, linked-without_tags j id tags ls)

-- An identity is read alike where its links are the same.
pub read_rows_congr :
    (t t' : Tables) (j : ℕ) (rows : List IdentityRow)
    → linked j t'.identity_tags ≡ linked j t.identity_tags
    → linked j t'.identity_boundaries ≡ linked j t.identity_boundaries
    → read_rows t' (selected (j ∷ []) rows) ≡ read_rows t (selected (j ∷ []) rows)
unfolding read_rows read_row
read_rows_congr t t' j [] a b = refl
read_rows_congr t t' j (r ∷ rs) a b = elim (Bool-cases (j == r.id)) [
  | inr e ↦ rw e (read_rows_congr t t' j rs a b)
  | inl e ↦
      let q : j ≡ r.id = eq_of_== j r.id e in
      let same : read_row t' r ≡ read_row t r =
        ap₂ (with_boundaries r)
          (ap (λ k. linked k t'.identity_tags) (sym q) ∙ a ∙ ap (λ k. linked k t.identity_tags) q)
          (ap (λ k. linked k t'.identity_boundaries) (sym q)
            ∙ b
            ∙ ap (λ k. linked k t.identity_boundaries) q) in
      rw e (λ i. do one ← same i; rest ← read_rows_congr t t' j rs a b i; ok (one ∷ rest))
]

pub selected-others :
    (j id : ℕ) (rows : List IdentityRow)
    → selected (j ∷ []) (others (λ i. i.id) id rows)
      ≡ (if id == j then [] else selected (j ∷ []) rows)
selected-others j id [] = ground arith
selected-others j id (r ∷ rs) = ground (arith, selected-others j id rs)

all_new_snoc :
    (held : List ℕ) (p : ℕ) (os : List ℕ)
    → all (λ o. not (contains (held ++ (p ∷ [])) o)) os
      ≡ (all (λ o. not (contains held o)) os && not (contains os p))
all_new_snoc held p [] = refl
all_new_snoc held p (o ∷ os) =
    ground (arith, contains-append o held (p ∷ []), all_new_snoc held p os)

-- Links can be inserted exactly if they are different, and none is there.
pub insert_links_lem :
    (id : ℕ) (os : List ℕ) (ls : List Link)
    → insert_links id os ls ≡ (
        if distinct os && all (λ o. not (contains (linked id ls) o)) os
        then ok (ls ++ links id os)
        else crash)
unfolding insert_links
insert_links_lem id [] ls = ap ok (sym (append_nil ls))
insert_links_lem id (o ∷ os) ls = elim (Bool-cases (contains (linked id ls) o)) [
  | inl e ↦ rw e (ground arith)
  | inr e ↦
      let l : Link = record { identity_id = id; other_id = o } in
      let held : linked id (ls ++ (l ∷ [])) ≡ linked id ls ++ (o ∷ []) =
        linked-append id ls (l ∷ []) ∙ rw (==_refl id) refl in
      rw e (
        ground (
          arith,
          insert_links_lem id os (ls ++ (l ∷ [])),
          ap (λ h. all (λ p. not (contains h p)) os) held,
          all_new_snoc (linked id ls) o os,
          append_assoc ls (l ∷ []) (links id os),
        ))
]

all_new_empty : (os : List ℕ) → all (λ o. not (contains {A = ℕ} [] o)) os ≡ true
all_new_empty [] = refl
all_new_empty (o ∷ os) = all_new_empty os

pub insert_links_empty :
    (id : ℕ) (os : List ℕ) (ls : List Link)
    → linked id ls ≡ []
    → insert_links id os ls ≡ (if distinct os then ok (ls ++ links id os) else crash)
insert_links_empty id os ls none_there =
    insert_links_lem id os ls ∙ rw (none_there, all_new_empty os) (ground arith)
