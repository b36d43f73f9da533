-- ===== src/Certificate/Serial/Laws.antt =====
-- The serial numbers that are reserved: a range that nobody else gets.
use mathlib.Core.Path.{subst}
use pf.Base.{
  ℕ, zero, suc, ◌+◌, ◌≤◌, ◌≡◌, List, [], ◌∷◌, ◌++◌, ◌==◌, nat_eq, if◌then◌else◌, Bool-cases, inl,
  inr, true, false, append_assoc, arith,
}
use pf.Http.{Outcome, ok}
use pf.Certificate.Serial.{
  Counter, compare_and_set, next_move, later_moves, attempts, serial_attempts,
  allocate_serial_numbers,
}

-- The calls of one signing key, each with what other processes reserve before it, and with the moves
-- that they make during it.
pub record Call : Type 0 where
  pub before : ℕ
  pub count : ℕ
  pub moves : List ℕ

-- What other processes reserve during a call, as first number and count: each move of the counter
-- is a range of theirs. The first attempt that they leave alone is the last one.
unfoldable pub others : ℕ → List ℕ → ℕ → ℕ → List (ℕ × ℕ)
others zero moves count first = []
others (suc n) moves count first =
    let move = next_move moves in
    let rest = others n (later_moves moves) count (first + move) in
    if count == 0 then [] else if move == 0 then [] else (first, move) ∷ rest

-- The range of a call, if it gets one.
abbrev pub granted : ℕ → Outcome ℕ → List (ℕ × ℕ)
granted count (ok first) = (first, count) ∷ []
granted count _ = []

-- All ranges of a signing key, while a sequence of calls runs: those of other processes and those
-- that the calls hand out, in the order in which the counter was moved.
unfoldable pub ranges : List Call → Counter → List (ℕ × ℕ)
ranges [] c = []
ranges (k ∷ calls) c =
    let c' : Counter = record c { serial_number = c.serial_number + k.before } in
    let p = allocate_serial_numbers k.moves k.count c' in
    (c.serial_number, k.before)
    ∷ (others serial_attempts k.moves k.count c'.serial_number
        ++ (granted k.count p.0 ++ ranges calls p.1))

-- The ranges come one after the other, from `low` on.
abbrev pub IsAbove : ℕ → List (ℕ × ℕ) → Type 0
IsAbove low [] = Unit
IsAbove low ((first, count) ∷ rs) = (low ≤ first) × IsAbove (first + count) rs

-- They end at `high` or below it.
abbrev IsBetween : ℕ → ℕ → List (ℕ × ℕ) → Type 0
IsBetween low high [] = low ≤ high
IsBetween low high ((first, count) ∷ rs) = (low ≤ first) × IsBetween (first + count) high rs

IsAbove-mono : (low high : ℕ) (rs : List (ℕ × ℕ)) → low ≤ high → IsAbove high rs → IsAbove low rs
IsAbove-mono low high [] h a = tt
IsAbove-mono low high (r ∷ rs) h a = (omega (arith, a.0), a.1)

IsBetween-append :
    (low high : ℕ) (rs ss : List (ℕ × ℕ))
    → IsBetween low high rs
    → IsAbove high ss
    → IsAbove low (rs ++ ss)
IsBetween-append low high [] ss b a = IsAbove-mono low high ss b a
IsBetween-append low high (r ∷ rs) ss b a = (b.0, IsBetween-append (r.0 + r.1) high rs ss b.1 a)

attempts-IsBetween :
    (n : ℕ) (moves : List ℕ) (count : ℕ) (c : Counter)
    → let p = attempts n moves count c in
      IsBetween c.serial_number p.1.serial_number
        (others n moves count c.serial_number ++ granted count p.0)
unfolding attempts others compare_and_set
attempts-IsBetween zero moves count c = omega arith
attempts-IsBetween (suc n) moves count c =
    let first = c.serial_number in
    let move = next_move moves in
    let again =
      attempts-IsBetween n (later_moves moves) count (record c { serial_number = first + move }) in
    elim (Bool-cases (count == 0)) [
      | inl e ↦
          let none_asked : count ≡ 0 = ground arith in rw e (omega arith, omega (arith, none_asked))
      | inr e ↦ elim (Bool-cases (move == 0)) [
        | inl still ↦
            let same : (first == first + move) ≡ true = ground arith in
            rw (e, still, same) (omega arith, omega arith)
        | inr moved ↦
            let other : (first == first + move) ≡ false = ground arith in
            rw (e, moved, other) (omega arith, again)
      ]
    ]

-- Whatever other processes reserve before, between and during calls, the ranges of one signing key,
-- theirs and those that are handed out, come one after the other, above the counter at the start: no
-- serial number is handed out twice, and none that another process has.
pub ranges-IsAbove : (calls : List Call) (c : Counter) → IsAbove c.serial_number (ranges calls c)
unfolding ranges allocate_serial_numbers
ranges-IsAbove [] c = tt
ranges-IsAbove (k ∷ calls) c =
    let c' : Counter = record c { serial_number = c.serial_number + k.before } in
    let p = allocate_serial_numbers k.moves k.count c' in
    let theirs = others serial_attempts k.moves k.count c'.serial_number in
    (
      omega arith,
      subst (IsAbove c'.serial_number)
          (append_assoc theirs (granted k.count p.0) (ranges calls p.1))
          (IsBetween-append c'.serial_number p.1.serial_number (theirs ++ granted k.count p.0)
            (ranges calls p.1) (attempts-IsBetween serial_attempts k.moves k.count c')
            (ranges-IsAbove calls p.1)),
    )
