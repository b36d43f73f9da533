-- ===== src/Reaper/Processes/Visits.antt =====
-- The children of a process, and a visit to it.
use pf.Base.{
  ℕ, ◌+◌, ◌≤◌, ◌<◌, Bool, true, false, not, ◌&&◌, ◌||◌, if◌then◌else◌, ◌==◌, nat_eq, contains,
  contains-append, any, length, length-append, get_or, List, [], ◌∷◌, ◌++◌, ◌≡◌, refl, ◌∙◌, arith,
  Bool-cases, inl, inr,
}
use pf.Base.Dict.{Dict, lookup, lookup-insert}
use pf.Reaper.Processes.{
  Proc, Snapshot, add_child, children_of, place, sorted, Frontier, visit_child, visit,
}

contains-place : (a x : ℕ) (xs : List ℕ) → contains (place x xs) a ≡ (x == a || contains xs a)
contains-place a x [] = refl
contains-place a x (y ∷ ys) = ground (arith, contains-place a x ys)

pub contains-sorted : (a : ℕ) (xs : List ℕ) → contains (sorted xs) a ≡ contains xs a
unfolding sorted
contains-sorted a [] = refl
contains-sorted a (x ∷ xs) = contains-place a x (sorted xs) ∙ ground (arith, contains-sorted a xs)

-- Some process of the table has this parent and this id.
abbrev pub is_child : Snapshot → ℕ → ℕ → Bool
is_child table p c = any (λ e. e.1.ppid == p && e.1.pid == c) table

add_child_lem :
    (children : Dict ℕ (List ℕ)) (proc : Proc) (p c : ℕ)
    → contains (get_or (lookup p (add_child children proc)) []) c
      ≡ (contains (get_or (lookup p children) []) c || proc.ppid == p && proc.pid == c)
add_child_lem children proc p c = elim (Bool-cases (proc.ppid == p)) [
  | inl e ↦
      let siblings = get_or (lookup proc.ppid children) [] in
      ground (
        arith,
        lookup-insert proc.ppid p (siblings ++ proc.pid ∷ []) children,
        contains-append c siblings (proc.pid ∷ []),
      )
  | inr e ↦
      let siblings = get_or (lookup proc.ppid children) [] in
      ground (arith, lookup-insert proc.ppid p (siblings ++ proc.pid ∷ []) children)
]

pub children_of_lem :
    (children : Dict ℕ (List ℕ)) (table : Snapshot) (p c : ℕ)
    → contains (get_or (lookup p (children_of children table)) []) c
      ≡ (contains (get_or (lookup p children) []) c || is_child table p c)
unfolding children_of
children_of_lem children [] p c = ground arith
children_of_lem children ((key, proc) ∷ table) p c =
    children_of_lem (add_child children proc) table p c
    ∙ ground (arith, add_child_lem children proc p c)

pub contains-visit-found :
    (pid x : ℕ) (cs : List ℕ) (f : Frontier)
    → contains (visit pid cs f).found x ≡ (contains f.found x || contains cs x && not (x == pid))
unfolding visit
contains-visit-found pid x [] f = ground arith
contains-visit-found pid x (c ∷ cs) f =
    contains-visit-found pid x cs (visit_child pid c f)
    ∙ ground (arith, contains-append x f.found (c ∷ []))

pub contains-visit-queue :
    (pid x : ℕ) (cs : List ℕ) (f : Frontier)
    → contains (visit pid cs f).queue x
      ≡ (contains f.queue x || contains cs x && not (x == pid) && not (contains f.found x))
unfolding visit
contains-visit-queue pid x [] f = ground arith
contains-visit-queue pid x (c ∷ cs) f =
    contains-visit-queue pid x cs (visit_child pid c f)
    ∙ ground (arith, contains-append x f.found (c ∷ []), contains-append x f.queue (c ∷ []))

-- The processes of the table that are not found yet.
unfoldable pub unfound : Snapshot → List ℕ → ℕ
unfound [] found = 0
unfound ((key, proc) ∷ table) found =
    (if contains found proc.pid then 0 else 1) + unfound table found

unfound-le :
    (table : Snapshot) (found : List ℕ) (c : ℕ)
    → unfound table (found ++ c ∷ []) ≤ unfound table found
unfolding unfound
unfound-le [] found c = omega arith
unfound-le ((key, proc) ∷ table) found c =
    ground (arith, contains-append proc.pid found (c ∷ []), unfound-le table found c)

unfound-lt :
    (table : Snapshot) (found : List ℕ) (p c : ℕ)
    → is_child table p c ≡ true
    → contains found c ≡ false
    → unfound table (found ++ c ∷ []) < unfound table found
unfolding unfound
unfound-lt [] found p c h n = cc
unfound-lt ((key, proc) ∷ table) found p c h n = ground (
  arith,
  contains-append proc.pid found (c ∷ []),
  unfound-le table found c,
  unfound-lt table found p c,
)

-- A visit takes as many processes from those that are not found as it adds to the queue.
pub visit_measure :
    (table : Snapshot) (pid p : ℕ) (cs : List ℕ) (f : Frontier)
    → ((c : ℕ) → contains cs c ≡ true → is_child table p c ≡ true)
    → length (visit pid cs f).queue + unfound table (visit pid cs f).found
      ≤ length f.queue + unfound table f.found
unfolding visit
visit_measure table pid p [] f h = omega arith
visit_measure table pid p (c ∷ cs) f h =
    let rest = visit_measure table pid p cs (visit_child pid c f) (λ d m. h d (ground arith)) in
    ground (
      arith,
      rest,
      h c (ground arith),
      length-append f.queue (c ∷ []),
      unfound-lt table f.found p c,
    )
