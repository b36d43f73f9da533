-- ===== src/Reaper/Processes.antt =====
-- The process table: src/provablyfine/cli/pf/host/procs.py. What `ps` prints and how a process is
-- signalled is left to the operating system.
pub mod Visits
pub mod Descendants
pub mod Ancestors
use mathlib.Core.Path.{◌≡◌}
use pf.Base.{
  ℕ, zero, suc, String, Bool, true, false, not, ◌&&◌, ◌||◌, ltb, leb, if◌then◌else◌, ◌==◌, nat_eq,
  string_eq, contains, length, Option, none, some, get_or, List, [], ◌∷◌, ◌++◌, map,
}
use pf.Base.Dict.{Dict, lookup, insert}

pub record Proc : Type 0 where
  pub pid : ℕ
  pub ppid : ℕ
  pub command : String

-- `dict[int, Proc]`
abbrev pub Snapshot : Type 0
Snapshot = Dict ℕ Proc

abbrev pub ConnectionTest : Type 0
ConnectionTest = Snapshot → Proc → Bool

-- `matches` is the regular expression on the stripped title of a process.
unfoldable pub macos_connection : (String → Bool) → ConnectionTest
macos_connection matches snapshot proc = matches proc.command && proc.ppid == 1

abbrev pub is_command : (String → String) → String → Option Proc → Bool
is_command lower name none = false
is_command lower name (some proc) = lower proc.command == name

abbrev pub parent_of : Snapshot → Option Proc → Option Proc
parent_of snapshot none = none
parent_of snapshot (some proc) = lookup proc.ppid snapshot

-- `lower` is `str.lower`.
unfoldable pub windows_connection : (String → String) → ConnectionTest
windows_connection lower snapshot proc =
    let parent = lookup proc.ppid snapshot in
    lower proc.command == "sshd.exe"
    && is_command lower "sshd.exe" parent
    && is_command lower "services.exe" (parent_of snapshot parent)

-- The loop of `ancestors`; `none` means that the fuel ran out.
unfoldable pub climb : ℕ → Snapshot → Option Proc → List ℕ → List Proc → Option (List Proc)
climb zero table current seen found = none
climb (suc fuel) table none seen found = some found
climb (suc fuel) table (some current) seen found =
    let parent = lookup current.ppid table in
    let rest : Option (List Proc) = elim parent [
      | none ↦ some found
      | some p ↦ climb fuel table (some p) (p.pid ∷ seen) (found ++ p ∷ [])
    ] in
    if ltb 0 current.ppid && not (contains seen current.ppid) then rest else some found

-- `ancestors(table, pid)`: every round but the last sees another process of the table.
unfoldable pub ancestors : Snapshot → ℕ → List Proc
ancestors table pid = get_or (climb (suc (length table)) table (lookup pid table) (pid ∷ []) []) []

unfoldable pub first : ConnectionTest → Snapshot → List Proc → Option Proc
first test table [] = none
first test table (p ∷ ps) = if test table p then some p else first test table ps

unfoldable pub find_ancestor : Snapshot → ℕ → ConnectionTest → Option Proc
find_ancestor table pid test = first test table (ancestors table pid)

-- `children.setdefault(proc.ppid, []).append(proc.pid)`
abbrev pub add_child : Dict ℕ (List ℕ) → Proc → Dict ℕ (List ℕ)
add_child children proc =
    insert proc.ppid (get_or (lookup proc.ppid children) [] ++ proc.pid ∷ []) children

unfoldable pub children_of : Dict ℕ (List ℕ) → Snapshot → Dict ℕ (List ℕ)
children_of children [] = children
children_of children ((key, proc) ∷ table) = children_of (add_child children proc) table

abbrev pub place : ℕ → List ℕ → List ℕ
place x [] = x ∷ []
place x (y ∷ ys) = let rest = y ∷ place x ys in if leb x y then x ∷ y ∷ ys else rest

-- `sorted(xs)`
unfoldable pub sorted : List ℕ → List ℕ
sorted [] = []
sorted (x ∷ xs) = place x (sorted xs)

pub record Frontier : Type 0 where
  pub found : List ℕ
  pub queue : List ℕ

abbrev pub visit_child : ℕ → ℕ → Frontier → Frontier
visit_child pid child f =
    if not (child == pid) && not (contains f.found child)
    then record { found = f.found ++ child ∷ []; queue = f.queue ++ child ∷ [] }
    else f

-- The inner loop of `descendants`.
unfoldable pub visit : ℕ → List ℕ → Frontier → Frontier
visit pid [] f = f
visit pid (child ∷ children) f = visit pid children (visit_child pid child f)

-- The outer loop; `none` means that the fuel ran out.
unfoldable pub explore : ℕ → Dict ℕ (List ℕ) → ℕ → List ℕ → List ℕ → Option (List ℕ)
explore zero children pid found queue = none
explore (suc fuel) children pid found [] = some found
explore (suc fuel) children pid found (p ∷ queue) =
    let f =
      visit pid (sorted (get_or (lookup p children) []))
        (record { found = found; queue = queue }) in
    explore fuel children pid f.found f.queue

-- `descendants(table, pid)`: each process of the table enters the queue at most once.
unfoldable pub descendants : Snapshot → ℕ → List ℕ
descendants table pid =
    get_or (explore (suc (suc (length table))) (children_of [] table) pid [] (pid ∷ [])) []
