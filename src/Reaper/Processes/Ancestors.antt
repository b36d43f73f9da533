-- ===== src/Reaper/Processes/Ancestors.antt =====
-- The climb to the parents of a process ends, whatever the table says.
use pf.Base.{
  ℕ, zero, suc, ◌+◌, ◌≤◌, ◌<◌, Bool, true, false, not, ◌&&◌, ltb, if◌then◌else◌, ◌==◌, nat_eq,
  contains, all, length, Option, none, some, get_or, List, [], ◌∷◌, ◌++◌, ◌≡◌, refl, sym, ap, ◌∙◌,
  arith, Bool-cases, Option-cases, inl, inr, eq_of_==,
}
use pf.Base.Dict.{lookup}
use pf.Reaper.Processes.{Proc, Snapshot, climb, ancestors}

-- Each process stands under its own id.
abbrev pub is_keyed : Snapshot → Bool
is_keyed table = all (λ e. e.0 == e.1.pid) table

lookup_keyed :
    (table : Snapshot) (k : ℕ) {p : Proc}
    → is_keyed table ≡ true
    → lookup k table ≡ some p
    → (p.pid == k) ≡ true
lookup_keyed [] k h e = cc
lookup_keyed ((j, q) ∷ table) k {p} h e =
    ground (arith, lookup_keyed table k {p = p}, λ (s : q ≡ p). ap (λ r. r.pid) s)

-- The processes of the table that are not seen yet.
unseen : Snapshot → List ℕ → ℕ
unseen [] seen = 0
unseen ((key, proc) ∷ table) seen = (if contains seen proc.pid then 0 else 1) + unseen table seen

unseen-le : (table : Snapshot) (seen : List ℕ) (c : ℕ) → unseen table (c ∷ seen) ≤ unseen table seen
unfolding unseen
unseen-le [] seen c = omega arith
unseen-le ((key, proc) ∷ table) seen c = ground (arith, unseen-le table seen c)

unseen-lt :
    (table : Snapshot) (seen : List ℕ) (k : ℕ) {p : Proc}
    → lookup k table ≡ some p
    → contains seen p.pid ≡ false
    → unseen table (p.pid ∷ seen) < unseen table seen
unfolding unseen
unseen-lt [] seen k e h = cc
unseen-lt ((j, q) ∷ table) seen k {p} e h = ground (
  arith,
  unseen-le table seen p.pid,
  unseen-lt table seen k {p = p},
  λ (s : q ≡ p). ap (λ r. r.pid) s,
)

unseen_bound : (table : Snapshot) (seen : List ℕ) → unseen table seen ≤ length table
unfolding unseen
unseen_bound [] seen = omega arith
unseen_bound ((key, proc) ∷ table) seen = ground (arith, unseen_bound table seen)

climb_total :
    (fuel : ℕ) (table : Snapshot) (current : Option Proc) (seen : List ℕ) (found : List Proc)
    → is_keyed table ≡ true
    → unseen table seen < fuel
    → (r : List Proc) × (climb fuel table current seen found ≡ some r)
unfolding climb
climb_total zero table current seen found k h = elim h [ ]
climb_total (suc fuel) table none seen found k h = (found, refl)
climb_total (suc fuel) table (some p) seen found k h =
    elim (Bool-cases (ltb 0 p.ppid && not (contains seen p.ppid))) [
      | inr e ↦ (found, rw e refl)
      | inl e ↦ elim (Option-cases (lookup p.ppid table)) [
        | inl f ↦ (found, rw (e, f) refl)
        | inr (q, f) ↦
            let fresh : contains seen q.pid ≡ false =
              ap (contains seen) (eq_of_== q.pid p.ppid (lookup_keyed table p.ppid k f))
              ∙ ground arith in
            let (r, g) =
              climb_total fuel table (some q) (q.pid ∷ seen) (found ++ q ∷ []) k
                (omega (arith, unseen-lt table seen p.ppid f fresh)) in
            (r, rw (e, f) g)
      ]
    ]

-- With every process under its own id, the loop of ancestors ends in the rounds it is given.
pub ancestors_total :
    (table : Snapshot) (pid : ℕ)
    → is_keyed table ≡ true
    → climb (suc (length table)) table (lookup pid table) (pid ∷ []) [] ≡ some (ancestors table pid)
unfolding ancestors
ancestors_total table pid k =
    let (r, e) =
      climb_total (suc (length table)) table (lookup pid table) (pid ∷ []) [] k
        (omega (arith, unseen_bound table (pid ∷ []))) in
    e ∙ ap some (ap (λ o. get_or o []) (sym e))
