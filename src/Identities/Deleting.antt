-- ===== src/Identities/Deleting.antt =====
-- What is read of identities after a deletion.
use pf.Base.{
  ℕ, any, Bool, false, ◌||◌, if◌then◌else◌, ◌==◌, nat_eq, Option, none, some, List, [], ◌∷◌, ◌≡◌,
  refl, sym, ap, ◌∙◌, arith, Bool-cases, inl, inr,
}
use pf.Http.{ok, ◌>>=◌, >>=-inverts, ok-injective}
use pf.Certificate.Tables.{Identity}
use pf.Identities.Snapshot.{Deletion, others}
use pf.Identities.{
  Tables, read_rows, selected, read_all, first, read_one, delete_rows, delete_read, delete,
}
use pf.Identities.Links.{linked-others, read_rows_congr, selected-others}

read_one-delete_rows :
    (id j : ℕ) (d : Deletion) (t : Tables)
    → read_one (delete_rows id d t) j ≡ (if id == j then ok none else read_one t j)
unfolding read_one read_all delete_rows read_rows
read_one-delete_rows id j d t = elim (Bool-cases (id == j)) [
  | inl e ↦
      let gone : selected (j ∷ []) (others (λ i. i.id) id t.identities) ≡ [] =
        selected-others j id t.identities ∙ ground arith in
      ap (λ rows. read_rows (delete_rows id d t) rows >>= λ is. ok (first is)) gone ∙ rw e refl
  | inr e ↦
      let kept : selected (j ∷ []) (others (λ i. i.id) id t.identities)
          ≡ selected (j ∷ []) t.identities =
        selected-others j id t.identities ∙ ground arith in
      ap (λ rows. read_rows (delete_rows id d t) rows >>= λ is. ok (first is)) kept
      ∙ ap (λ o. o >>= λ is. ok (first is))
          (read_rows_congr t (delete_rows id d t) j t.identities
            (linked-others j id t.identity_tags ∙ ground arith)
            (linked-others j id t.identity_boundaries ∙ ground arith))
      ∙ rw e refl
]

delete_read_inverts :
    (now id : ℕ) (t : Tables) (o : Option Identity) {t' : Tables}
    → delete_read now id t o ≡ ok t'
    → (d : Deletion) × (delete_rows id d t ≡ t')
delete_read_inverts now id t none h = cc
delete_read_inverts now id t (some i) h = (_, ok-injective h)

-- Some key, invitation, membership or connection belongs to the identity.
abbrev pub owns : ℕ → Tables → Bool
owns id t =
    any (λ k. k.identity_id == id) t.session_keys
    || any (λ k. k.identity_id == id) t.account_keys
    || any (λ i. i.identity_id == id) t.invitation_keys
    || any (λ m. m.identity_id == id) t.role_members
    || any (λ c. c.identity_id == id) t.connections

any-others :
    {R : Type 0} (owner : R → ℕ) (id : ℕ) (rows : List R)
    → any (λ r. owner r == id) (others owner id rows) ≡ false
any-others owner id [] = refl
any-others owner id (r ∷ rs) = ground (arith, any-others owner id rs)

owns-delete_rows : (id : ℕ) (d : Deletion) (t : Tables) → owns id (delete_rows id d t) ≡ false
unfolding delete_rows
owns-delete_rows id d t = ground (
  arith,
  any-others (λ k. k.identity_id) id t.session_keys,
  any-others (λ k. k.identity_id) id t.account_keys,
  any-others (λ i. i.identity_id) id t.invitation_keys,
  any-others (λ m. m.identity_id) id t.role_members,
  any-others (λ c. c.identity_id) id t.connections,
)

-- Once an identity is deleted it is not read any more, and every other identity is read as before.
-- No key, invitation, membership or connection of the identity is left.
pub read_one-delete :
    (now id j : ℕ) (t t' : Tables)
    → delete now id t ≡ ok t'
    → (read_one t' j ≡ (if id == j then ok none else read_one t j)) × (owns id t' ≡ false)
unfolding delete
read_one-delete now id j t t' h =
    let (o, read, done) = >>=-inverts (read_one t id) (delete_read now id t) h in
    let (d, e) = delete_read_inverts now id t o done in
    (
      ap (λ u. read_one u j) (sym e) ∙ read_one-delete_rows id j d t,
      ap (owns id) (sym e) ∙ owns-delete_rows id d t,
    )
