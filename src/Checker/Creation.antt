-- ===== src/Checker/Creation.antt =====
-- Which identities may be created: the remark in `IdentityChecker.can_create` that fewer tags and
-- more boundaries are safe.
use pf.Base.{
  ℕ, ◌≡◌, refl, Bool, true, not, ◌&&◌, Option, none, some, List, [], ◌∷◌, contains, nat_eq, all,
  arith, mem_of_contains, is_some, Option-cases, inl, inr, forall_of_all,
}
use pf.Grant.{Grant, Boundary, IdentityGrant}
use pf.Grant.Permission.{IdentityCreatePermission}
use pf.Checker.{Checker}
use pf.Checker.Policy.{Fits, can_iff}
use pf.Checker.IdentityChecker.{all_in, check_create, can_create}

pub contains_of_all_in :
    (xs ys : List ℕ) (a : ℕ) → all_in xs ys ≡ true → contains xs a ≡ true → contains ys a ≡ true
contains_of_all_in xs ys a h m = forall_of_all (λ (x : ℕ). contains ys x) h (mem_of_contains a xs m)

all_in_trans : (xs ys zs : List ℕ) → all_in xs ys ≡ true → all_in ys zs ≡ true → all_in xs zs ≡ true
all_in_trans [] ys zs h k = refl
all_in_trans (x ∷ xs) ys zs h k =
    ground (arith, contains_of_all_in ys zs x k, all_in_trans xs ys zs)

abbrev allows_all : Option (List ℕ) → List ℕ → Bool
allows_all allowed xs = elim allowed [ none ↦ true | some ys ↦ all_in xs ys ]

abbrev requires_all : Option (List ℕ) → List ℕ → Bool
requires_all required xs = elim required [ none ↦ true | some ys ↦ all_in ys xs ]

check_create_iff :
    (tags boundaries : List ℕ) (p : IdentityCreatePermission)
    → check_create tags boundaries (some p) ≡ (
        p.allowed
        && allows_all p.allowed_tag_id_list tags
        && requires_all p.required_boundary_id_list boundaries)
unfolding check_create
check_create_iff tags boundaries p = elim (Option-cases p.allowed_tag_id_list) [
  | inl e ↦ elim (Option-cases p.required_boundary_id_list) [
    | inl f ↦ ground arith
    | inr (bs, f) ↦ ground arith
  ]
  | inr (ts, e) ↦ elim (Option-cases p.required_boundary_id_list) [
    | inl f ↦ ground arith
    | inr (bs, f) ↦ ground arith
  ]
]

allows_all_mono :
    (allowed : Option (List ℕ)) (xs ys : List ℕ)
    → all_in xs ys ≡ true
    → allows_all allowed ys ≡ true
    → allows_all allowed xs ≡ true
allows_all_mono none xs ys h k = refl
allows_all_mono (some zs) xs ys h k = all_in_trans xs ys zs h k

requires_all_mono :
    (required : Option (List ℕ)) (xs ys : List ℕ)
    → all_in xs ys ≡ true
    → requires_all required xs ≡ true
    → requires_all required ys ≡ true
requires_all_mono none xs ys h k = refl
requires_all_mono (some zs) xs ys h k = all_in_trans zs xs ys k h

module _ (tags tags' boundaries boundaries' : List ℕ) where
  check_create_mono :
      (p : Option IdentityCreatePermission)
      → all_in tags' tags ≡ true
      → all_in boundaries boundaries' ≡ true
      → check_create tags boundaries p ≡ true
      → check_create tags' boundaries' p ≡ true
  unfolding check_create
  check_create_mono none ht hb h = refl
  check_create_mono (some p) ht hb h = ground (
    arith,
    check_create_iff tags boundaries p,
    check_create_iff tags' boundaries' p,
    allows_all_mono p.allowed_tag_id_list tags' tags ht,
    requires_all_mono p.required_boundary_id_list boundaries boundaries' hb,
  )

  creation_test : List ℕ → List ℕ → IdentityGrant → Bool
  creation_test ts bs g = check_create ts bs g.permission.create

  Fits-mono :
      (c : Checker IdentityGrant) {g : Grant}
      → all_in tags' tags ≡ true
      → all_in boundaries boundaries' ≡ true
      → Fits c (creation_test tags boundaries) g
      → Fits c (creation_test tags' boundaries') g
  unfolding creation_test
  Fits-mono c ht hb f = record {
    value = f.value;
    is_instance = f.is_instance;
    in_filter = f.in_filter;
    passes = check_create_mono f.value.permission.create ht hb f.passes;
  }

  not_instance :
      (c : Checker IdentityGrant) (g : Grant) {x : IdentityGrant}
      → not (is_some (c.cls g)) ≡ true
      → c.cls g ≡ some x
      → ⊥
  not_instance c g h e = ground arith

  -- Where no boundary of the caller has an identity grant in its denied list: whoever may create
  -- an identity may create it with some of the tags left out, and with further boundaries.
  pub can_create_mono :
      (c : Checker IdentityGrant)
      → all (λ b. all (λ g. not (is_some (c.cls g))) b.denied_list) c.boundaries ≡ true
      → all_in tags' tags ≡ true
      → all_in boundaries boundaries' ≡ true
      → can_create c tags boundaries ≡ true
      → can_create c tags' boundaries' ≡ true
  unfolding can_create creation_test
  can_create_mono c undenied ht hb h =
      let p = (can_iff c (creation_test tags boundaries)).0 h in
      let (r, g, m, n, f) = p.granted in
      (can_iff c (creation_test tags' boundaries')).1 (record {
        not_denied = λ b bm g gm fit.
            not_instance c g
              (forall_of_all (λ g. not (is_some (c.cls g)))
                (forall_of_all (λ (b : Boundary). all (λ g. not (is_some (c.cls g))) b.denied_list)
                  undenied bm)
                gm)
              fit.is_instance;
        below_ceiling = λ b bm ceiling e.
            let (g, gm, fit) = p.below_ceiling b bm ceiling e in (g, gm, Fits-mono c ht hb fit);
        granted = (r, g, m, n, Fits-mono c ht hb f);
      })
