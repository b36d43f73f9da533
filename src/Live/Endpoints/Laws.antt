-- ===== src/Live/Endpoints/Laws.antt =====
-- Who may not read a session learns nothing about it from an attempt to end it.
use pf.Base.{
  ◌≡◌, refl, Bool, true, false, none, some, List, [], ◌∷◌, String, ◌==◌, string_eq, any, filter,
  if◌then◌else◌, arith, Bool-cases, Option-cases, inl, inr,
}
use pf.Checker.LiveChecker.{can_read}
use pf.Certificate.Tables.{Identity, Caller}
use pf.Live.Registry.{LiveSession, read_one}
use pf.Live.Registry.Laws.{distinct_ids}
use pf.Live.Endpoints.{checker, terminate_endpoint}

read_one_absent :
    (p : LiveSession → Bool) (id : String) (rs : List LiveSession)
    → any (λ x. id == x.id) rs ≡ false
    → read_one id (filter p rs) ≡ none
unfolding read_one
read_one_absent p id [] h = refl
read_one_absent p id (r ∷ rs) h = ground (arith, read_one_absent p id rs)

read_one-filter :
    (p : LiveSession → Bool) (id : String) (rs : List LiveSession)
    → distinct_ids rs ≡ true
    → read_one id (filter p rs)
      ≡ elim (read_one id rs) [ none ↦ none | some r ↦ if p r then some r else none ]
unfolding read_one
read_one-filter p id [] h = refl
read_one-filter p id (r ∷ rs) h =
    ground (arith, read_one-filter p id rs, read_one_absent p r.id rs, read_one_absent p id rs)

-- On a table where no id stands twice, the answer to a request to end a session is the one that a table
-- without the sessions that the caller may not read gives.
pub terminate_endpoint-filter :
    (caller : Caller) (identities : List Identity) (urls : List String) (id : String)
    (sessions : List LiveSession)
    → distinct_ids sessions ≡ true
    → terminate_endpoint caller identities urls id sessions
      ≡ terminate_endpoint caller identities urls id
          (filter (λ r. can_read (checker caller identities r.hostname)) sessions)
unfolding terminate_endpoint
terminate_endpoint-filter caller identities urls id sessions h =
    let readable : LiveSession → Bool = λ r. can_read (checker caller identities r.hostname) in
    let found = read_one-filter readable id sessions h in
    elim (Option-cases (read_one id sessions)) [
      | inl e ↦ ground (arith, found)
      | inr (r, e) ↦ elim (Bool-cases (readable r)) [
        | inl k ↦ ground (arith, found)
        | inr k ↦ ground (arith, found)
      ]
    ]
