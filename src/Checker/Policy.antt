-- ===== src/Checker/Policy.antt =====
-- The policy that `Checker.can` decides.
use mathlib.Core.List.{Memᴰ}
use pf.Base.{
  Bool, true, false, not, ◌&&◌, ◌≡◌, refl, ◌↔◌, some, List, [], ◌∷◌, any, length, flat_map,
  filter_map, ltb, arith, Bool-cases, Option-cases, inl, inr, length-append, exists_of_any,
  any_of_mem, any_of_none, none_of_any,
}
use pf.Grant.{Grant, Boundary, Role}
use pf.Checker.{Checker, fits, fitting, refuses, list_can, can}

module _ {G : Type 0} (c : Checker G) (cmp : G → Bool) where
  -- A grant of the checker's class that passes its filter and the test.
  pub record Fits (g : Grant) : Type 0 where
    pub value : G
    pub is_instance : c.cls g ≡ some value
    pub in_filter : c.filter value ≡ true
    pub passes : cmp value ≡ true

  -- What the docstrings of the program promise: no boundary denies the request, each ceiling
  -- has a grant for it, and so does a role.
  pub record Permits : Type 0 where
    pub not_denied :
        (b : Boundary) → Memᴰ b c.boundaries → (g : Grant) → Memᴰ g b.denied_list → ¬ Fits g
    pub below_ceiling :
        (b : Boundary)
        → Memᴰ b c.boundaries
        → (ceiling : List Grant) → b.ceiling_list ≡ some ceiling
        → (g : Grant) × Memᴰ g ceiling × Fits g
    pub granted : (r : Role) × (g : Grant) × Memᴰ r c.roles × Memᴰ g r.grant_list × Fits g

  fits-Fits : (g : Grant) → fits c cmp g ≡ true → Fits g
  unfolding fits
  fits-Fits g h = elim (Option-cases (c.cls g)) [
    | inl e ↦ ground arith
    | inr (x, e) ↦ record {
      value = x;
      is_instance = e;
      in_filter = ground arith;
      passes = ground arith;
    }
  ]

  Fits-fits : (g : Grant) → Fits g → fits c cmp g ≡ true
  unfolding fits
  Fits-fits g h = ground arith

  filter_map-any :
      (gs : List Grant) → ltb 0 (length (filter_map (fitting c cmp) gs)) ≡ any (fits c cmp) gs
  unfolding fits fitting
  filter_map-any [] = refl
  filter_map-any (g ∷ gs) = ground (arith, filter_map-any gs)

  length-pos-flat_map :
      (rs : List Role)
      → ltb 0 (length (flat_map (λ r. filter_map (fitting c cmp) r.grant_list) rs))
        ≡ any (λ r. any (fits c cmp) r.grant_list) rs
  length-pos-flat_map [] = refl
  length-pos-flat_map (r ∷ rs) = ground (
    arith,
    length-append (filter_map (fitting c cmp) r.grant_list)
        (flat_map (λ r. filter_map (fitting c cmp) r.grant_list) rs),
    filter_map-any r.grant_list,
    length-pos-flat_map rs,
  )

  -- `can` without the list of grants.
  pub can-eq-any :
      can c cmp
      ≡ (not (any (refuses c cmp) c.boundaries) && any (λ r. any (fits c cmp) r.grant_list) c.roles)
  unfolding can list_can
  can-eq-any = ground (arith, length-pos-flat_map c.roles)

  refuses-eq-false :
      (b : Boundary)
      → ((g : Grant) → Memᴰ g b.denied_list → ¬ Fits g)
      → ((ceiling : List Grant)
          → b.ceiling_list ≡ some ceiling
          → (g : Grant) × Memᴰ g ceiling × Fits g)
      → refuses c cmp b ≡ false
  unfolding refuses
  refuses-eq-false b denied ceiling = elim (Option-cases b.ceiling_list) [
    | inl e ↦ ground (arith, undenied)
    | inr (gs, e) ↦
        let (g, m, f) = ceiling gs e in
        ground (arith, undenied, any_of_mem (fits c cmp) m (Fits-fits g f))
  ]
    where
      undenied : any (fits c cmp) b.denied_list ≡ false
      undenied = any_of_none (fits c cmp) b.denied_list λ g m. elim (Bool-cases (fits c cmp g)) [
        | inl e ↦ absurd (denied g m (fits-Fits g e))
        | inr e ↦ e
      ]

  not_refused :
      (b : Boundary)
      → refuses c cmp b ≡ false
      → (any (fits c cmp) b.denied_list ≡ false)
        × ((ceiling : List Grant) → b.ceiling_list ≡ some ceiling → any (fits c cmp) ceiling ≡ true)
  unfolding refuses
  not_refused b h = (ground arith, λ ceiling e. ground arith)

  granted-Permits : can c cmp ≡ true → Permits
  granted-Permits h =
      let within : any (refuses c cmp) c.boundaries ≡ false = ground (arith, can-eq-any) in
      let (r, m, e) =
        exists_of_any (λ (r : Role). any (fits c cmp) r.grant_list) c.roles
          (ground (arith, can-eq-any)) in
      let (g, n, f) = exists_of_any (fits c cmp) r.grant_list e in
      record {
        not_denied = λ b bm g gm fit. cc (
          none_of_any (fits c cmp) (not_refused b (none_of_any (refuses c cmp) within bm)).0 gm,
          Fits-fits g fit,
        );
        below_ceiling = λ b bm ceiling e.
            let (g, gm, fit) =
              exists_of_any (fits c cmp) ceiling
                ((not_refused b (none_of_any (refuses c cmp) within bm)).1 ceiling e) in
            (g, gm, fits-Fits g fit);
        granted = (r, g, m, n, fits-Fits g f);
      }

  Permits-granted : Permits → can c cmp ≡ true
  Permits-granted h =
      let (r, g, m, n, f) = h.granted in
      ground (
        arith,
        can-eq-any,
        any_of_none (refuses c cmp) c.boundaries
            (λ b bm. refuses-eq-false b (h.not_denied b bm) (h.below_ceiling b bm)),
        any_of_mem (λ (r : Role). any (fits c cmp) r.grant_list) m
            (any_of_mem (fits c cmp) n (Fits-fits g f)),
      )

  -- A request is allowed exactly when no boundary of the caller has a matching grant in its
  -- denied list, each ceiling of a boundary of the caller has a matching grant, and some role of
  -- the caller has one.
  pub can_iff : (can c cmp ≡ true) ↔ Permits
  can_iff = (granted-Permits, Permits-granted)

module _ {G : Type 0} (cmp : G → Bool) (c : Checker G) (bs : List Boundary) (rs : List Role) where
  -- With no boundary that the caller did not have before, and with every role that the caller
  -- had, whatever the order and the repetitions, what was allowed stays allowed: so a further
  -- boundary only restricts, and a further role only adds.
  pub can_mono :
      ((b : Boundary) → Memᴰ b bs → Memᴰ b c.boundaries)
      → ((r : Role) → Memᴰ r c.roles → Memᴰ r rs)
      → can c cmp ≡ true
      → can (record c { boundaries = bs; roles = rs }) cmp ≡ true
  can_mono fewer more h =
      let p = (can_iff c cmp).0 h in
      let (r, g, m, n, f) = p.granted in
      (can_iff (record c { boundaries = bs; roles = rs }) cmp).1 (record {
        not_denied = λ b bm g gm fit. p.not_denied b (fewer b bm) g gm (same fit);
        below_ceiling = λ b bm ceiling e.
            let (g, gm, fit) = p.below_ceiling b (fewer b bm) ceiling e in (g, gm, other fit);
        granted = (r, g, more r m, n, other f);
      })
    where
      same : {g : Grant} → Fits (record c { boundaries = bs; roles = rs }) cmp g → Fits c cmp g
      same f = record {
        value = f.value;
        is_instance = f.is_instance;
        in_filter = f.in_filter;
        passes = f.passes;
      }

      other : {g : Grant} → Fits c cmp g → Fits (record c { boundaries = bs; roles = rs }) cmp g
      other f = record {
        value = f.value;
        is_instance = f.is_instance;
        in_filter = f.in_filter;
        passes = f.passes;
      }
