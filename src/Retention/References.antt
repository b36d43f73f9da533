-- ===== src/Retention/References.antt =====
-- The rows about an entry go with it.
use pf.Base.{
  suc, Option-cases, ℕ, ◌≡◌, refl, sym, ◌∙◌, ap, fun_ext, Bool, true, not, ◌&&◌, some, List, [],
  ◌∷◌, map, ◌==◌, nat_eq, contains, any, all, filter, length, arith, Bool-cases, inl, inr,
}
use pf.Retention.{
  Settings, Entry, Ref, Tables, Run, entry_batch, entry_round, without, session_batch,
  session_round, fresh, purge,
}
use pf.Retention.Rounds.{rounds, rounds_keep}
use pf.Retention.Batch.{filter-filter}
use pf.Retention.Exact.{result_of, purge_returns}

-- The entry that a row is about is there.
abbrev pub has : List Entry → Ref → Bool
has entries f = any (λ e. e.id == f.entry_id) entries

has-filter :
    (ids : List ℕ) (entries : List Entry) (f : Ref)
    → has (filter (λ e. not (contains ids e.id)) entries) f
      ≡ (has entries f && not (contains ids f.entry_id))
has-filter ids [] f = refl
has-filter ids (e ∷ entries) f = elim (Bool-cases (e.id == f.entry_id)) [
  | inl h ↦
      let same : e.id ≡ f.entry_id = ground arith in
      ground (arith, ap (contains ids) same, has-filter ids entries f)
  | inr h ↦ ground (arith, has-filter ids entries f)
]

without-has :
    (ids : List ℕ) (entries : List Entry) (refs : List Ref)
    → without ids (filter (has entries) refs)
      ≡ filter (has (filter (λ e. not (contains ids e.id)) entries)) refs
unfolding without
without-has ids entries refs =
    filter-filter (λ f. not (contains ids f.entry_id)) (has entries) refs
    ∙ ap (λ p. filter p refs) (fun_ext (λ f. sym (has-filter ids entries f)))

-- The rows of the tables `t` that are left are those whose entry is left.
record IsConsistent (t : Tables) (r : Run) : Type 0 where
  refs_kept : r.tables.refs ≡ filter (has r.tables.entries) t.refs
  object_names_kept : r.tables.object_names ≡ filter (has r.tables.entries) t.object_names

entry_round-IsConsistent :
    (settings : Settings) (t : Tables) (r r' : Run)
    → IsConsistent t r
    → entry_round settings r ≡ some r'
    → IsConsistent t r'
unfolding entry_round
entry_round-IsConsistent settings t r r' k h =
    let batch = entry_batch settings r.tables.entries in
    let ids = map (λ e. e.id) batch in
    elim (Bool-cases (length batch == 0)) [
      | inl e ↦ absurd (ground arith)
      | inr e ↦
          let left : r'.tables.entries ≡ filter (λ x. not (contains ids x.id)) r.tables.entries =
            ap (λ o. (result_of r o).tables.entries) (sym h) ∙ rw e refl in
          let refs : r'.tables.refs ≡ without ids r.tables.refs =
            ap (λ o. (result_of r o).tables.refs) (sym h) ∙ rw e refl in
          let names : r'.tables.object_names ≡ without ids r.tables.object_names =
            ap (λ o. (result_of r o).tables.object_names) (sym h) ∙ rw e refl in
          record {
            refs_kept =
                refs
                ∙ ap (without ids) k.refs_kept
                ∙ without-has ids r.tables.entries t.refs
                ∙ ap (λ es. filter (has es) t.refs) (sym left);
            object_names_kept =
                names
                ∙ ap (without ids) k.object_names_kept
                ∙ without-has ids r.tables.entries t.object_names
                ∙ ap (λ es. filter (has es) t.object_names) (sym left);
          }
    ]

session_round-IsConsistent :
    (settings : Settings) (t : Tables) (r r' : Run)
    → IsConsistent t r
    → session_round settings r ≡ some r'
    → IsConsistent t r'
unfolding session_round
session_round-IsConsistent settings t r r' k h =
    let batch = session_batch settings r.tables.sessions in
    elim (Bool-cases (length batch == 0)) [
      | inl e ↦ absurd (ground arith)
      | inr e ↦
          let entries : r'.tables.entries ≡ r.tables.entries =
            ap (λ o. (result_of r o).tables.entries) (sym h) ∙ rw e refl in
          let refs : r'.tables.refs ≡ r.tables.refs =
            ap (λ o. (result_of r o).tables.refs) (sym h) ∙ rw e refl in
          let names : r'.tables.object_names ≡ r.tables.object_names =
            ap (λ o. (result_of r o).tables.object_names) (sym h) ∙ rw e refl in
          record {
            refs_kept = refs ∙ k.refs_kept ∙ ap (λ es. filter (has es) t.refs) (sym entries);
            object_names_kept =
                names
                ∙ k.object_names_kept
                ∙ ap (λ es. filter (has es) t.object_names) (sym entries);
          }
    ]

filter_same : {A : Type 0} (p : A → Bool) (xs : List A) → all p xs ≡ true → filter p xs ≡ xs
filter_same p [] h = refl
filter_same p (x ∷ xs) h = ground (arith, filter_same p xs)

purge_steps :
    (settings : Settings) (t : Tables) (r : Run)
    → purge settings t ≡ some r
    → (r₁ : Run) × (rounds (suc (length t.entries)) (entry_round settings) (fresh t) ≡ some r₁)
      × (rounds (suc (length t.sessions)) (session_round settings) r₁ ≡ some r)
unfolding purge
purge_steps settings t r h =
    elim (Option-cases (rounds (suc (length t.entries)) (entry_round settings) (fresh t))) [
      | inl e ↦ absurd (ground arith)
      | inr (r₁, e) ↦ (r₁, e, ground arith)
    ]

-- Where every row of references and of names is about an entry that is there, purge_tenant ends and
-- leaves exactly the rows whose entry it leaves: none is about an entry that is gone.
pub purge-has :
    (settings : Settings) (t : Tables)
    → all (has t.entries) t.refs ≡ true
    → all (has t.entries) t.object_names ≡ true
    → (r : Run) × (purge settings t ≡ some r)
      × (r.tables.refs ≡ filter (has r.tables.entries) t.refs)
      × (r.tables.object_names ≡ filter (has r.tables.entries) t.object_names)
purge-has settings t h k =
    let (r, returns) = purge_returns settings t in
    let (r₁, first_loop, second_loop) = purge_steps settings t r returns in
    let first : IsConsistent t (fresh t) = record {
      refs_kept = sym (filter_same (has t.entries) t.refs h);
      object_names_kept = sym (filter_same (has t.entries) t.object_names k);
    } in
    let gone =
      rounds_keep (entry_round settings) (IsConsistent t) (entry_round-IsConsistent settings t)
        (suc (length t.entries)) (fresh t) r₁ first first_loop in
    let end =
      rounds_keep (session_round settings) (IsConsistent t) (session_round-IsConsistent settings t)
        (suc (length t.sessions)) r₁ r gone second_loop in
    (r, returns, end.refs_kept, end.object_names_kept)
