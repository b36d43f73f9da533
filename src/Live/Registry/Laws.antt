-- ===== src/Live/Registry/Laws.antt =====
-- What the loop of `end` does to the table, row by row.
pub mod Invariant
use mathlib.Core.List.{Memᴰ}
use mathlib.Core.List.Memᴰ.{head, tail}
use pf.Base.{
  ℕ, max, ◌≡◌, refl, sym, ◌∙◌, ap, Bool, true, false, not, ◌&&◌, ◌||◌, Option, none, some, List, [],
  ◌∷◌, ◌++◌, map, String, ◌==◌, ==_refl, string_eq, nat_eq, any, filter, if◌then◌else◌, is_some,
  arith, map_congr, map_same, map-map, Bool-cases, Option-cases, none_of_any, inl, inr, any-append,
}
use pf.Certificate.Tables.{SshConnection}
use pf.Live.Registry.{
  Kind, LiveSession, Report, connection, conflicts, create_if_absent, start, reported, close,
  close_all, end,
}

-- No id stands twice.
abbrev pub distinct_ids : List LiveSession → Bool
distinct_ids [] = true
distinct_ids (r ∷ rs) = not (any (λ x. r.id == x.id) rs) && distinct_ids rs

-- What a report of an end makes of a session.
abbrev pub ended : Report → LiveSession → LiveSession
ended report r =
    if reported report r then record r { ended_at = some (max report.at r.started_at) } else r

module _ (at : ℕ) where
  close_row : List LiveSession → LiveSession → LiveSession
  close_row [] x = x
  close_row (row ∷ rows) x = close_row rows (close at row x)

  close_all-map :
      (rows sessions : List LiveSession)
      → close_all at rows sessions ≡ map (close_row rows) sessions
  unfolding close_all close_row
  close_all-map [] sessions = sym (map_same sessions)
  close_all-map (r ∷ rows) sessions =
      close_all-map rows (map (close at r) sessions)
      ∙ map-map (close_row rows) (close at r) sessions

  close_row_other :
      (rows : List LiveSession) (x : LiveSession)
      → any (λ r. x.id == r.id) rows ≡ false
      → close_row rows x ≡ x
  unfolding close_row close
  close_row_other [] x h = refl
  close_row_other (r ∷ rows) x h =
      ap (close_row rows) {y = x} (ground arith) ∙ close_row_other rows x (ground arith)

  close_row_ended :
      (rows : List LiveSession) (x : LiveSession) → is_some x.ended_at ≡ true → close_row rows x ≡ x
  unfolding close_row close
  close_row_ended [] x h = refl
  close_row_ended (r ∷ rows) x h =
      ap (close_row rows) {y = x} (ground arith) ∙ close_row_ended rows x h

  any-filter_false :
      (p q : LiveSession → Bool) (xs : List LiveSession)
      → any q xs ≡ false
      → any q (filter p xs) ≡ false
  any-filter_false p q [] h = refl
  any-filter_false p q (x ∷ xs) h = ground (arith, any-filter_false p q xs)

  -- The rounds change a row of the table exactly where it is one of the rows of the loop.
  module _ (p : LiveSession → Bool)
      (open_only : (r : LiveSession) → p r ≡ true → is_some r.ended_at ≡ false) where
    changed : LiveSession → LiveSession
    changed x = if p x then record x { ended_at = some (max at x.started_at) } else x

    close_row-head :
        (y : LiveSession) (sessions : List LiveSession)
        → distinct_ids (y ∷ sessions) ≡ true
        → close_row (filter p (y ∷ sessions)) y ≡ changed y
    unfolding close_row close changed
    close_row-head y sessions h =
        let fresh : any (λ r. y.id == r.id) (filter p sessions) ≡ false =
          any-filter_false p (λ r. y.id == r.id) sessions (ground arith) in
        elim (Bool-cases (p y)) [
          | inl e ↦ rw e (
              ap (close_row (filter p sessions))
                {y = record y { ended_at = some (max at y.started_at) }}
                (ground (arith, ==_refl y.id, open_only y e))
              ∙ close_row_ended (filter p sessions) _ refl)
          | inr e ↦ rw e (close_row_other (filter p sessions) y fresh)
        ]

    close_row-filter :
        (sessions : List LiveSession) (x : LiveSession)
        → distinct_ids sessions ≡ true
        → Memᴰ x sessions
        → close_row (filter p sessions) x ≡ changed x
    unfolding close_row close
    close_row-filter [] x h m = elim m [ ]
    close_row-filter (y ∷ sessions) x h (head e) = rw e (close_row-head y sessions h)
    close_row-filter (y ∷ sessions) x h (tail m) =
        let other : (y.id == x.id) ≡ false =
          none_of_any (λ z. y.id == z.id) {xs = sessions} (ground arith) m in
        let later = close_row-filter sessions x (ground arith) m in
        elim (Bool-cases (p y)) [
          | inl e ↦
              rw e (ap (close_row (filter p sessions)) {y = x} (ground (arith, other)) ∙ later)
          | inr e ↦ rw e later
        ]

reported_open :
    (report : Report) (r : LiveSession) → reported report r ≡ true → is_some r.ended_at ≡ false
unfolding reported
reported_open report r h = ground arith

-- On a table where no id stands twice, a report of an end on a connection that was issued for the host
-- ends the open sessions that it is about, at the time of the report, but not before they started;
-- every other session, one that has ended too, stays as it was.
pub end-ended :
    (report : Report) (connections : List SshConnection) (c : SshConnection)
    (sessions : List LiveSession)
    → connection report.connection_id report.hostname connections ≡ some c
    → distinct_ids sessions ≡ true
    → end report connections sessions ≡ some (map (ended report) sessions)
unfolding end changed
end-ended report connections c sessions h d =
    rw (end, h)
      (ap some (
        close_all-map report.at (filter (reported report) sessions) sessions
        ∙ map_congr _ _ sessions (λ x m.
          close_row-filter report.at (reported report) (reported_open report) sessions x d m)))
