-- ===== src/Reaper/Processes/Descendants.antt =====
-- The processes below another one.
use pf.Base.{
  ℕ, zero, suc, ◌+◌, ◌≤◌, ◌<◌, Bool, true, false, ◌||◌, ◌==◌, nat_eq, contains, ◌↔◌, eq_of_==,
  length, some, get_or, List, [], ◌∷◌, ◌≡◌, refl, sym, ap, ◌∙◌, arith, Bool-cases, inl, inr,
}
use pf.Base.Dict.{Dict, lookup}
use pf.Reaper.Processes.{Snapshot, children_of, sorted, Frontier, visit, explore, descendants}
use pf.Reaper.Processes.Visits.{
  contains-sorted, is_child, children_of_lem, contains-visit-found, contains-visit-queue, unfound,
  visit_measure,
}

-- A process that is reached from another one over parents.
pub data Below (table : Snapshot) (pid : ℕ) : ℕ → Type 0 where
  child : {c : ℕ} → is_child table pid c ≡ true → Below table pid c
  deeper : {p c : ℕ} → Below table pid p → is_child table p c ≡ true → Below table pid c

module _ (table : Snapshot) (pid : ℕ) where
  abbrev known : List ℕ → ℕ → Bool
  known found x = x == pid || contains found x

  record Explores (found queue : List ℕ) : Type 0 where
    -- What waits is known.
    waiting : (x : ℕ) → contains queue x ≡ true → known found x ≡ true
    sound : (x : ℕ) → contains found x ≡ true → Below table pid x × ((x == pid) ≡ false)
    -- Who is known and does not wait has no unknown child.
    closed :
        (x c : ℕ)
        → known found x ≡ true
        → contains queue x ≡ false
        → is_child table x c ≡ true
        → known found c ≡ true

  Below-known :
      (found : List ℕ) {c : ℕ} → Explores found [] → Below table pid c → known found c ≡ true
  Below-known found {c} inv (child h) = inv.closed pid c (ground arith) refl h
  Below-known found {c} inv (deeper {p} b h) = inv.closed p c (Below-known found inv b) refl h

  -- A child of a known process is below the first one.
  child_reached :
      (found : List ℕ) (p c : ℕ)
      → ((x : ℕ) → contains found x ≡ true → Below table pid x × ((x == pid) ≡ false))
      → known found p ≡ true
      → is_child table p c ≡ true
      → Below table pid c
  child_reached found p c sound k h = elim (Bool-cases (p == pid)) [
    | inl e ↦ child (sym (ap (λ q. is_child table q c) (eq_of_== p pid e)) ∙ h)
    | inr e ↦ deeper (sound p (ground arith)).0 h
  ]

  visit-Explores :
      (p : ℕ) (cs found queue : List ℕ)
      → ((c : ℕ) → contains cs c ≡ is_child table p c)
      → Explores found (p ∷ queue)
      → let f = visit pid cs (record { found = found; queue = queue }) in Explores f.found f.queue
  visit-Explores p cs found queue same inv =
      let f : Frontier = record { found = found; queue = queue } in
      record {
        waiting = λ x h. ground (
          arith,
          contains-visit-found pid x cs f,
          contains-visit-queue pid x cs f,
          inv.waiting x,
        );
        sound = λ x h. elim (Bool-cases (contains found x)) [
          | inl e ↦ inv.sound x e
          | inr e ↦ (
            child_reached found p x inv.sound (inv.waiting p (ground arith))
                (ground (arith, contains-visit-found pid x cs f, same x)),
            ground (arith, contains-visit-found pid x cs f),
          )
        ];
        closed = λ x c k q h. ground (
          arith,
          contains-visit-found pid x cs f,
          contains-visit-queue pid x cs f,
          contains-visit-found pid c cs f,
          inv.closed x c,
          same c,
          λ (e : p ≡ x). ap (λ y. is_child table y c) e,
          eq_of_== p x,
        );
      }

  module _ (children : Dict ℕ (List ℕ))
      (listed : (p c : ℕ) → contains (get_or (lookup p children) []) c ≡ is_child table p c) where
    -- With more fuel than processes, the loop ends with a set that is closed under children.
    explore-Explores :
        (fuel : ℕ) (found queue : List ℕ)
        → length queue + unfound table found < fuel
        → Explores found queue
        → (r : List ℕ) × (explore fuel children pid found queue ≡ some r) × Explores r []
    unfolding explore
    explore-Explores zero found queue h inv = elim h [ ]
    explore-Explores (suc fuel) found [] h inv = (found, refl, inv)
    explore-Explores (suc fuel) found (p ∷ queue) h inv =
        let cs : List ℕ = sorted (get_or (lookup p children) []) in
        let same : ((c : ℕ) → contains cs c ≡ is_child table p c) =
          λ c. contains-sorted c (get_or (lookup p children) []) ∙ listed p c in
        let f : Frontier = record { found = found; queue = queue } in
        let less = visit_measure table pid p cs f (λ c m. sym (same c) ∙ m) in
        explore-Explores fuel (visit pid cs f).found (visit pid cs f).queue (omega arith)
          (visit-Explores p cs found queue same inv)

  unfound_none : (t : Snapshot) (found : List ℕ) → unfound t found ≤ length t
  unfolding unfound
  unfound_none [] found = omega arith
  unfound_none ((key, proc) ∷ t) found = ground (arith, unfound_none t found)

  start-Explores : Explores [] (pid ∷ [])
  start-Explores = record {
    waiting = λ x h. ground arith;
    sound = λ x h. cc;
    closed = λ x c k q h. ground arith;
  }

  explored :
      (r : List ℕ) × (explore (suc (suc (length table))) (children_of [] table) pid [] (pid ∷ [])
        ≡ some r)
      × Explores r []
  explored =
      explore-Explores (children_of [] table) (λ p c. children_of_lem [] table p c)
        (suc (suc (length table))) [] (pid ∷ []) (omega (arith, unfound_none table []))
        start-Explores

  pub descendants-Below :
      (c : ℕ)
      → (contains (descendants table pid) c ≡ true) ↔ (Below table pid c × ((c == pid) ≡ false))
  unfolding descendants
  descendants-Below c =
      let (r, e, inv) = explored in
      (
        λ h. inv.sound c (ap (λ o. contains (get_or o []) c) (sym e) ∙ h),
        λ h.
            let (below, other) = h in
            ap (λ o. contains (get_or o []) c) e ∙ ground (arith, Below-known r inv below),
      )
