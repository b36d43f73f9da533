-- ===== src/Certificate/Serial.antt =====
-- `allocate_serial_numbers` of src/provablyfine/api/model/signing_key.py. Other requests may move
-- the counter between the read and the conditional update of an attempt, by reserving numbers
-- themselves: `moves` lists how many, attempt by attempt, and none past its end.
pub mod Laws
use pf.Base.{
  ℕ, zero, suc, ◌+◌, Bool, true, false, Option, none, some, List, [], ◌∷◌, ◌++◌, ◌==◌, nat_eq,
  if◌then◌else◌,
}
use pf.Http.{Outcome, ok, problem, crash, fail}

-- The counter of a signing key, and the new values that the audit log keeps.
pub record Counter : Type 0 where
  pub serial_number : ℕ
  pub updates : List ℕ

-- `update(serial_number=first + count).where(serial_number=first)`: whether a row has changed.
unfoldable pub compare_and_set : ℕ → ℕ → ℕ → Bool
compare_and_set first serial_number count = first == serial_number

abbrev pub next_move : List ℕ → ℕ
next_move [] = 0
next_move (m ∷ moves) = m

abbrev pub later_moves : List ℕ → List ℕ
later_moves [] = []
later_moves (m ∷ moves) = moves

unfoldable pub attempts : ℕ → List ℕ → ℕ → Counter → Outcome ℕ × Counter
unfolding compare_and_set
attempts zero moves count c = (fail 409 "Unable to reserve serial numbers, try again", c)
attempts (suc n) moves count c =
    let first = c.serial_number in
    let moved = first + next_move moves in
    let again = attempts n (later_moves moves) count (record c { serial_number = moved }) in
    if count == 0
    then (ok first, c)
    else if compare_and_set first moved count
    then (
      ok first,
      record { serial_number = first + count; updates = c.updates ++ ((first + count) ∷ []) },
    )
    else again

-- `_SERIAL_ATTEMPTS`
abbrev pub serial_attempts : ℕ
serial_attempts = 5

unfoldable pub allocate_serial_numbers : List ℕ → ℕ → Counter → Outcome ℕ × Counter
unfolding attempts
allocate_serial_numbers moves count c = attempts serial_attempts moves count c
