-- ===== src/Reaper/Ticks/Safety.antt =====
-- What every run of the reaper signals.
use mathlib.Core.List.{Memᴰ}
use mathlib.Core.List.Memᴰ.{head, tail}
use mathlib.Core.Path.{subst}
use pf.Base.{
  ℕ, String, Bool, not, string_eq, contains, filter, is_some, Option, Bool-cases, none, some, List,
  [], ◌∷◌, refl, sym, inl, inr,
}
use pf.Base.Dict.{keys}
use pf.Reaper.Names.{match_record_name}
use pf.Reaper.Requests.{Expiration, expire}
use pf.Reaper.Sessions.{Effect, signalled, Reaper, Settings, Host, forget, handle}
use pf.Reaper.Sessions.Authority.{Explained, IsAuthorised, Fine, AllFine}
use pf.Reaper.Sessions.Dropping.{AllFine-append, forget-Lawful}
use pf.Reaper.Sessions.Lawful.{handle-Lawful}
use pf.Reaper.Ticks.{
  Round, take_turn, handle_named, tick_listed, handle_each, forget_each, removals, expire_requests,
  tick, state_after, none_yet,
}

module _ (c : Settings) (seen : List Host) (h : Host) where
  abbrev pub LawfulRound : Round → Type 0
  LawfulRound r = Explained c seen r.state × AllFine c seen h r.effects

  handle_named-Lawful :
      (name : String) (r : Round)
      → Memᴰ h seen
      → LawfulRound r
      → LawfulRound (handle_named c h name r)
  unfolding handle_named
  handle_named-Lawful name r here l = elim (Bool-cases (is_some (match_record_name name))) [
    | inl e ↦
        let (x, fine) = handle-Lawful c seen h name r.state here l.0 in
        rw e (x, AllFine-append c seen h r.effects (handle c h name r.state).effects l.1 fine)
    | inr e ↦ rw e l
  ]

  handle_each-Lawful :
      (names : List String) (r : Round)
      → Memᴰ h seen
      → LawfulRound r
      → LawfulRound (handle_each c h names r)
  unfolding handle_each
  handle_each-Lawful [] r here l = l
  handle_each-Lawful (name ∷ names) r here l =
      handle_each-Lawful names (handle_named c h name r) here (handle_named-Lawful name r here l)

  forget_each-Lawful :
      (names : List String) (r : Round) → LawfulRound r → LawfulRound (forget_each c h names r)
  unfolding forget_each
  forget_each-Lawful [] r l = l
  forget_each-Lawful (name ∷ names) r l =
      let (x, fine) = forget-Lawful c seen h name r.state l.0 in
      forget_each-Lawful names (take_turn (forget c h name r.state) r)
        (x, AllFine-append c seen h r.effects (forget c h name r.state).effects l.1 fine)

  removals-AllFine : (ids : List String) → AllFine c seen h (removals c h ids)
  removals-AllFine [] = tt
  removals-AllFine (i ∷ ids) = (tt, removals-AllFine ids)

  expire_requests-Lawful : (r : Round) → LawfulRound r → LawfulRound (expire_requests c h r)
  unfolding expire_requests
  expire_requests-Lawful r l =
      let e : Expiration =
        expire h.drops_request h.expires_at (filter (λ i. not (contains r.live i)) h.requested)
          r.state.orphans in
      (
        record { bound = l.0.bound; ending = l.0.ending },
        AllFine-append c seen h r.effects (removals c h e.removed) l.1 (removals-AllFine e.removed),
      )

  tick_listed-Lawful :
      (s : Reaper) (names : Option (List String))
      → Memᴰ h seen
      → Explained c seen s
      → LawfulRound (tick_listed c h s names)
  tick_listed-Lawful s none here x = (x, tt)
  tick_listed-Lawful s (some names) here x =
      let handled = handle_each c h names (none_yet s) in
      let gone = filter (λ name. not (contains names name)) (keys handled.state.bound) in
      expire_requests-Lawful (forget_each c h gone handled)
        (forget_each-Lawful gone handled (handle_each-Lawful names (none_yet s) here (x, tt)))

  tick-Lawful : (s : Reaper) → Memᴰ h seen → Explained c seen s → LawfulRound (tick c h s)
  unfolding tick
  tick-Lawful s here x = tick_listed-Lawful s h.names here x

-- What is explained stays so as more ticks are seen.
Explained-tail :
    (c : Settings) (h : Host) (seen : List Host) (s : Reaper)
    → Explained c seen s
    → Explained c (h ∷ seen) s
Explained-tail c h seen s x = record {
  bound = λ n b e. let (k, m, r) = x.bound n b e in (k, tail m, r);
  ending = λ n t e. let (b, f, k, m, a) = x.ending n t e in (b, f, k, tail m, a);
}

abbrev pub unused : Reaper
unused = record { bound = []; ending = []; reported = []; orphans = [] }

state_after-Explained : (c : Settings) (hs : List Host) → Explained c hs (state_after c unused hs)
unfolding state_after
state_after-Explained c [] = record { bound = λ n b e. cc; ending = λ n t e. cc }
state_after-Explained c (h ∷ hs) =
    (tick-Lawful c (h ∷ hs) h (state_after c unused hs) (head refl)
      (Explained-tail c h hs (state_after c unused hs) (state_after-Explained c hs))).0

at_member :
    (c : Settings) (seen : List Host) (h : Host) (es : List Effect) {e : Effect}
    → AllFine c seen h es
    → Memᴰ e es
    → Fine c seen h e
at_member c seen h [] f m = elim m [ ]
at_member c seen h (d ∷ es) f (head p) = subst (Fine c seen h) (sym p) f.0
at_member c seen h (d ∷ es) f (tail m) = at_member c seen h es f.1 m

-- After any ticks, a process is signalled only for a record that can be read now, whose process
-- runs and is the target or above it. That process, by its start time, passed the test for
-- connections at some tick, and was not younger than the record then. It is asked to end only if
-- that was requested or the deadline is past, and killed only if that was so at a tick at least
-- the time of grace earlier, when the process with this start time was there.
pub tick-IsAuthorised :
    (c : Settings) (hs : List Host) (h : Host) (p : ℕ) (force : Bool)
    → Memᴰ (signalled p force) (tick c h (state_after c unused hs)).effects
    → IsAuthorised c (h ∷ hs) h p force
tick-IsAuthorised c hs h p force m =
    at_member c (h ∷ hs) h (tick c h (state_after c unused hs)).effects
      (tick-Lawful c (h ∷ hs) h (state_after c unused hs) (head refl)
        (Explained-tail c h hs (state_after c unused hs) (state_after-Explained c hs))).1
      m
