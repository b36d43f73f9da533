-- ===== src/Reaper/Ticks/Reports.antt =====
-- What every run of the reaper reports.
use pf.Base.{
  ◌+◌, String, true, not, string_eq, contains, filter, is_some, Option, Bool-cases, none, some,
  List, [], ◌∷◌, ◌++◌, ◌≡◌, refl, inl, inr, arith,
}
use pf.Base.Dict.{keys}
use pf.Reaper.Names.{match_record_name}
use pf.Reaper.Requests.{Expiration, expire}
use pf.Reaper.Sessions.{Effect, Reaper, Settings, Host, forget, handle}
use pf.Reaper.Spool.{EventKind, start, end}
use pf.Reaper.Sessions.Events.{
  events, events-append, unended, Named, Keeps, forget-Keeps, handle-Keeps,
}
use pf.Reaper.Ticks.{
  Round, take_turn, handle_named, tick_listed, handle_each, forget_each, removals, expire_requests,
  tick, state_after, none_yet,
}
use pf.Reaper.Ticks.Safety.{unused}

-- Steps one after the other.
Keeps-append :
    (n : String) (s t u : Reaper) (es fs : List Effect)
    → Keeps n s es t
    → Keeps n t fs u
    → Keeps n s (es ++ fs) u
Keeps-append n s t u es fs a b =
    (omega (arith, a.0, b.0, events-append start n es fs, events-append end n es fs), b.1)

module _ (c : Settings) (is_live : c.is_live ≡ true) (h : Host) (n : String) (s : Reaper) where
  abbrev KeepsRound : Round → Type 0
  KeepsRound r = Keeps n s r.effects r.state

  handle_named-Keeps :
      (name : String) (r : Round) → KeepsRound r → KeepsRound (handle_named c h name r)
  unfolding handle_named
  handle_named-Keeps name r k = elim (Bool-cases (is_some (match_record_name name))) [
    | inl e ↦
        let t = handle c h name r.state in
        rw e (
          Keeps-append n s r.state t.state r.effects t.effects k
            (handle-Keeps c is_live h n name r.state k.1))
    | inr e ↦ rw e k
  ]

  handle_each-Keeps :
      (names : List String) (r : Round) → KeepsRound r → KeepsRound (handle_each c h names r)
  unfolding handle_each
  handle_each-Keeps [] r k = k
  handle_each-Keeps (name ∷ names) r k =
      handle_each-Keeps names (handle_named c h name r) (handle_named-Keeps name r k)

  forget_each-Keeps :
      (names : List String) (r : Round) → KeepsRound r → KeepsRound (forget_each c h names r)
  unfolding forget_each
  forget_each-Keeps [] r k = k
  forget_each-Keeps (name ∷ names) r k =
      let t = forget c h name r.state in
      forget_each-Keeps names (take_turn t r) (
        Keeps-append n s r.state t.state r.effects t.effects k
          (forget-Keeps c is_live h n name r.state k.1))

  removals-events : (kind : EventKind) (ids : List String) → events kind n (removals c h ids) ≡ 0
  removals-events kind [] = refl
  removals-events start (i ∷ ids) = removals-events start ids
  removals-events end (i ∷ ids) = removals-events end ids

  expire_requests-Keeps : (r : Round) → KeepsRound r → KeepsRound (expire_requests c h r)
  unfolding expire_requests
  expire_requests-Keeps r k =
      let e : Expiration =
        expire h.drops_request h.expires_at (filter (λ i. not (contains r.live i)) h.requested)
          r.state.orphans in
      let quiet : Keeps n r.state (removals c h e.removed)
          (record r.state { orphans = e.orphans }) =
        (omega (arith, removals-events start e.removed, removals-events end e.removed), k.1) in
      Keeps-append n s r.state (record r.state { orphans = e.orphans }) r.effects
        (removals c h e.removed) k quiet

  tick_listed-Keeps :
      (names : Option (List String)) → Named s → KeepsRound (tick_listed c h s names)
  tick_listed-Keeps none x = (refl, x)
  tick_listed-Keeps (some names) x =
      let handled = handle_each c h names (none_yet s) in
      let gone = filter (λ name. not (contains names name)) (keys handled.state.bound) in
      expire_requests-Keeps (forget_each c h gone handled)
        (forget_each-Keeps gone handled (handle_each-Keeps names (none_yet s) (refl, x)))

  tick-Keeps : Named s → KeepsRound (tick c h s)
  unfolding tick
  tick-Keeps x = tick_listed-Keeps h.names x

-- Everything that the ticks did, the newest tick first in the list of ticks.
abbrev pub effects_after : Settings → List Host → List Effect
effects_after c [] = []
effects_after c (h ∷ hs) = effects_after c hs ++ (tick c h (state_after c unused hs)).effects

runs-Keeps :
    (c : Settings) (hs : List Host) (n : String)
    → c.is_live ≡ true
    → Keeps n unused (effects_after c hs) (state_after c unused hs)
unfolding state_after
runs-Keeps c [] n l = (refl, λ name r e. cc)
runs-Keeps c (h ∷ hs) n l =
    let before = runs-Keeps c hs n l in
    let s = state_after c unused hs in
    Keeps-append n unused s (tick c h s).state (effects_after c hs) (tick c h s).effects before
      (tick-Keeps c l h n s before.1)

-- Where events are reported, over any ticks the end of the session of a record is reported as often
-- as its start, and once less while the reaper keeps the record as reported.
pub events-unended :
    (c : Settings) (hs : List Host) (name : String)
    → c.is_live ≡ true
    → events start name (effects_after c hs)
      ≡ events end name (effects_after c hs) + unended name (state_after c unused hs)
events-unended c hs name l = omega (arith, (runs-Keeps c hs name l).0)
