-- ===== src/Reaper/Sessions/Events.antt =====
-- The start and the end of a session are reported in turns.
use mathlib.Core.Option.{some-injective}
use pf.Base.{
  ℕ, suc, ◌+◌, ◌/◌, String, Bool, true, false, leb, ltb, if◌then◌else◌, ◌==◌, eq_of_==, nat_eq,
  string_eq, is_some, Option, none, some, List, [], ◌∷◌, ◌++◌, ◌≡◌, refl, sym, ap, ◌∙◌, arith,
  Bool-cases, Option-cases, inl, inr,
}
use pf.Base.Dict.{lookup, contains_key, insert, erase, lookup-insert, lookup-erase}
use pf.Reaper.Names.{record_name}
use pf.Reaper.Record.{Record, read_record}
use pf.Reaper.Record.Laws.{read_record-record_name}
use pf.Reaper.Processes.{Proc, descendants}
use pf.Reaper.Sessions.{
  Effect, reported, Reaper, Settings, Host, forget, drop, signals, is_due, enforce_ending, enforce,
  watch, bind, match_started, match_proc, handle_record, handle,
}
use pf.Reaper.Spool.{EventKind, start, end}

abbrev pub is_about : String → Record → Bool
is_about name r = record_name r.pid r.connection_id == name

abbrev pub is_event : EventKind → String → Effect → Bool
is_event start name (reported start r at) = is_about name r
is_event end name (reported end r at) = is_about name r
is_event kind name _ = false

-- How many events of a kind there are about the record of a name.
abbrev pub events : EventKind → String → List Effect → ℕ
events kind name [] = 0
events kind name (e ∷ es) =
    let rest = events kind name es in if is_event kind name e then suc rest else rest

pub events-append :
    (kind : EventKind) (name : String) (es fs : List Effect)
    → events kind name (es ++ fs) ≡ events kind name es + events kind name fs
events-append kind name [] fs = omega arith
events-append kind name (e ∷ es) fs = ground (arith, events-append kind name es fs)

-- 1 while the start of the session is reported and its end is not.
abbrev pub unended : String → Reaper → ℕ
unended name s = if is_some (lookup name s.reported) then 1 else 0

-- What is reported stands under the name of its record.
abbrev pub Named : Reaper → Type 0
Named s =
    (name : String) (r : Record)
    → lookup name s.reported ≡ some r
    → name ≡ record_name r.pid r.connection_id

-- From one state to another, with effects.
abbrev pub Balanced : String → Reaper → List Effect → Reaper → Type 0
Balanced name s es t = events start name es + unended name s ≡ events end name es + unended name t

abbrev pub Keeps : String → Reaper → List Effect → Reaper → Type 0
Keeps name s es t = Balanced name s es t × Named t

module _ (c : Settings) (is_live : c.is_live ≡ true) (h : Host) (n : String) where
  erased-Named :
      (name : String) (s : Reaper)
      → Named s
      → (m : String) (r : Record) → lookup m (erase name s.reported) ≡ some r
      → m ≡ record_name r.pid r.connection_id
  erased-Named name s x m r e = x m r (ground (arith, lookup-erase name m s.reported))

  pub forget-Keeps :
      (name : String) (s : Reaper)
      → Named s
      → let t = forget c h name s in Keeps n s t.effects t.state
  unfolding forget
  forget-Keeps name s x = elim (Option-cases (lookup name s.reported)) [
    | inl e ↦ (
      ground (
        arith,
        lookup-erase name n s.reported,
        λ (q : name ≡ n). ap (λ z. lookup z s.reported) q,
      ),
      erased-Named name s x,
    )
    | inr (r, e) ↦ (
      ground (
        arith,
        lookup-erase name n s.reported,
        λ (q : name ≡ n). ap (λ z. lookup z s.reported) q,
        ap (λ z. z == n) (x name r e),
      ),
      erased-Named name s x,
    )
  ]

  signals-events :
      (kind : EventKind) (ps : List ℕ) (force : Bool) → events kind n (signals c h ps force) ≡ 0
  signals-events kind [] force = refl
  signals-events start (p ∷ ps) force = signals-events start ps force
  signals-events end (p ∷ ps) force = signals-events end ps force

  drop-Keeps :
      (name : String) (s : Reaper)
      → Named s
      → let t = drop c h name s in Keeps n s t.effects t.state
  unfolding drop
  drop-Keeps name s x = elim (Bool-cases (h.unlinks name)) [
    | inl e ↦ rw e (forget-Keeps name s x)
    | inr e ↦ rw e (refl, x)
  ]

  enforce_ending-Keeps :
      (name : String) (r : Record) (s : Reaper) (o : Option ℕ)
      → Named s
      → let t = enforce_ending c h name r s o in Keeps n s t.effects t.state
  enforce_ending-Keeps name r s none x = elim (Bool-cases (is_due c h name r)) [
    | inl e ↦
        let ps = descendants h.snapshot r.pid ++ r.pid ∷ [] in
        rw e (omega (arith, signals-events start ps false, signals-events end ps false), x)
    | inr e ↦ rw e (refl, x)
  ]
  enforce_ending-Keeps name r s (some t) x = elim (Bool-cases (leb (t + c.grace) (h.now name))) [
    | inl e ↦
        let ps = descendants h.snapshot r.pid ++ r.pid ∷ [] in
        rw e (omega (arith, signals-events start ps true, signals-events end ps true), x)
    | inr e ↦ rw e (refl, x)
  ]

  enforce-Keeps :
      (name : String) (r : Record) (s : Reaper)
      → Named s
      → let t = enforce c h name r s in Keeps n s t.effects t.state
  unfolding enforce
  enforce-Keeps name r s x = enforce_ending-Keeps name r s (lookup name s.ending) x

  noted-Named :
      (name : String) (r : Record) (s : Reaper)
      → name ≡ record_name r.pid r.connection_id
      → Named s
      → Named (record s { reported = insert name r s.reported })
  noted-Named name r s q x m r' e = elim (Bool-cases (name == m)) [
    | inl same ↦
        let p : r ≡ r' = some-injective r r' (ground (arith, lookup-insert name m r s.reported)) in
        sym (eq_of_== name m same) ∙ q ∙ ap (λ z. record_name z.pid z.connection_id) p
    | inr other ↦ x m r' (ground (arith, lookup-insert name m r s.reported))
  ]

  watch-Keeps :
      (name : String) (r : Record) (s : Reaper)
      → name ≡ record_name r.pid r.connection_id
      → Named s
      → let t = watch c h name r s in Keeps n s t.effects t.state
  unfolding watch
  watch-Keeps name r s q x = elim (Bool-cases (contains_key name s.reported)) [
    | inl known ↦ rw known (enforce-Keeps name r s x)
    | inr new ↦
        let noted : Reaper = record s { reported = insert name r s.reported } in
        let (balanced, named) = enforce-Keeps name r noted (noted-Named name r s q x) in
        rw new (
          ground (
            arith,
            balanced,
            ap (λ z. z == n) q,
            lookup-insert name n r s.reported,
            λ (e : name ≡ n). ap (λ z. lookup z s.reported) e,
          ),
          named,
        )
  ]

  bind-Keeps :
      (name : String) (r : Record) (proc : Proc) (b : ℕ) (s : Reaper) (o : Option ℕ)
      → name ≡ record_name r.pid r.connection_id
      → Named s
      → let t = bind c h name r proc b s o in Keeps n s t.effects t.state
  bind-Keeps name r proc b s none q x = elim (Bool-cases (c.is_connection h.snapshot proc)) [
    | inr other ↦ rw other (drop-Keeps name s x)
    | inl accepted ↦ elim (Bool-cases (ltb (r.written_ms / 1000) b)) [
      | inl young ↦ rw (accepted, young) (drop-Keeps name s x)
      | inr old ↦
          rw (accepted, old) (watch-Keeps name r (record s { bound = insert name b s.bound }) q x)
    ]
  ]
  bind-Keeps name r proc b s (some b') q x = elim (Bool-cases (b' == b)) [
    | inl same ↦ rw same (watch-Keeps name r s q x)
    | inr other ↦ rw other (drop-Keeps name s x)
  ]

  pub handle-Keeps :
      (name : String) (s : Reaper)
      → Named s
      → let t = handle c h name s in Keeps n s t.effects t.state
  unfolding handle
  handle-Keeps name s x = elim (Option-cases (read_record name (h.file name))) [
    | inl e ↦ rw (e, handle_record) (drop-Keeps name s x)
    | inr (r, e) ↦ elim (Option-cases (lookup r.pid h.snapshot)) [
      | inl f ↦ rw (e, handle_record, f, match_proc) (drop-Keeps name s x)
      | inr (proc, f) ↦ elim (Option-cases (h.start_time r.pid)) [
        | inl g ↦ rw (e, handle_record, f, match_proc, g, match_started) (drop-Keeps name s x)
        | inr (b, g) ↦
            rw (e, handle_record, f, match_proc, g, match_started)
              (bind-Keeps name r proc b s (lookup name s.bound)
                (read_record-record_name name (h.file name) e).1 x)
      ]
    ]
  ]
