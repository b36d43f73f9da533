-- ===== src/Reaper/Sessions/Lawful.antt =====
-- Handling a record signals only what the ticks so far explain.
use mathlib.Core.List.{Memᴰ}
use mathlib.Core.Path.{subst}
use mathlib.Core.Option.{some-injective}
use pf.Base.{
  ℕ, ◌+◌, ◌/◌, String, Bool, true, false, leb, ltb, ◌==◌, eq_of_==, nat_eq, string_eq, contains,
  contains-append, Option, none, some, List, [], ◌∷◌, ◌++◌, ◌≡◌, inl, inr, refl, sym, ap, ◌∙◌,
  arith, Bool-cases, Option-cases,
}
use pf.Base.Dict.{lookup, contains_key, insert, lookup-insert}
use pf.Reaper.Record.{Record, read_record}
use pf.Reaper.Processes.{Proc, descendants}
use pf.Reaper.Processes.Descendants.{descendants-Below}
use pf.Reaper.Sessions.{
  Reaper, Settings, Host, report, signals, signal_all, is_due, enforce_ending, enforce, watch, bind,
  match_started, match_proc, handle_record, handle,
}
use pf.Reaper.Spool.{start}
use pf.Reaper.Sessions.Authority.{
  Recognised, Asked, Explained, Reason, IsAuthorised, AllFine, Lawful,
}
use pf.Reaper.Sessions.Dropping.{AllFine-append, report-AllFine, drop-Lawful}

module _ (c : Settings) (seen : List Host) (h : Host) where
  signals-AllFine :
      (ps : List ℕ) (force : Bool)
      → ((p : ℕ) → contains ps p ≡ true → IsAuthorised c seen h p force)
      → AllFine c seen h (signals c h ps force)
  signals-AllFine [] force f = tt
  signals-AllFine (p ∷ ps) force f =
      (f p (ground arith), signals-AllFine ps force (λ q m. f q (ground arith)))

  module _ (here : Memᴰ h seen) (name : String) (r : Record) (b : ℕ)
      (read : read_record name (h.file name) ≡ some r) (started : h.start_time r.pid ≡ some b) where
    signal_all-AllFine :
        (s : Reaper) (force : Bool)
        → Explained c seen s
        → lookup name s.bound ≡ some b
        → Reason c seen h name r b force
        → AllFine c seen h (signal_all c h r force)
    signal_all-AllFine s force x e why =
        signals-AllFine (descendants h.snapshot r.pid ++ r.pid ∷ []) force λ p m. record {
          name = name;
          entry = r;
          started = b;
          read = read;
          start_time = started;
          target = elim (Bool-cases (contains (descendants h.snapshot r.pid) p)) [
            | inl below ↦ inr ((descendants-Below h.snapshot r.pid p).0 below).0
            | inr other ↦ inl (
                sym (
                  eq_of_== r.pid p (
                    ground (arith, contains-append p (descendants h.snapshot r.pid) (r.pid ∷ [])))))
          ];
          first = x.bound name b e;
          reason = why;
        }

    asked-Explained :
        (s : Reaper)
        → Explained c seen s
        → lookup name s.bound ≡ some b
        → is_due c h name r ≡ true
        → Explained c seen (record s { ending = insert name (h.now name) s.ending })
    asked-Explained s x e due = record {
      bound = x.bound;
      ending = λ n t f. elim (Bool-cases (name == n)) [
        | inl same ↦
            let q : name ≡ n = eq_of_== name n same in
            (
              b,
              ap (λ m. lookup m s.bound) (sym q) ∙ e,
              h,
              here,
              subst (λ m. Asked c m b t h) q
                  (record {
                    entry = r;
                    read = read;
                    start_time = started;
                    due = due;
                    time =
                        some-injective (h.now name) t
                          (ground (arith, lookup-insert name n (h.now name) s.ending));
                  }),
            )
        | inr other ↦ x.ending n t (ground (arith, lookup-insert name n (h.now name) s.ending))
      ];
    }

    enforce_ending-Lawful :
        (s : Reaper) (o : Option ℕ)
        → Explained c seen s
        → lookup name s.bound ≡ some b
        → lookup name s.ending ≡ o
        → Lawful c seen h (enforce_ending c h name r s o)
    enforce_ending-Lawful s none x e f = elim (Bool-cases (is_due c h name r)) [
      | inl due ↦ rw due (asked-Explained s x e due, signal_all-AllFine s false x e due)
      | inr rest ↦ rw rest (x, tt)
    ]
    enforce_ending-Lawful s (some t) x e f =
        let (b', g, k, m, a) = x.ending name t f in
        let same : b' ≡ b = some-injective b' b (sym g ∙ e) in
        elim (Bool-cases (leb (t + c.grace) (h.now name))) [
          | inl late ↦ rw late (
            x,
            signal_all-AllFine s true x e
                (k, m, t, subst (λ z. Asked c name z t k) same a, ground arith),
          )
          | inr early ↦ rw early (x, tt)
        ]

    enforce-Lawful :
        (s : Reaper)
        → Explained c seen s
        → lookup name s.bound ≡ some b
        → Lawful c seen h (enforce c h name r s)
    unfolding enforce
    enforce-Lawful s x e = enforce_ending-Lawful s (lookup name s.ending) x e refl

    watch-Lawful :
        (s : Reaper)
        → Explained c seen s
        → lookup name s.bound ≡ some b
        → Lawful c seen h (watch c h name r s)
    unfolding watch
    watch-Lawful s x e = elim (Bool-cases (contains_key name s.reported)) [
      | inl known ↦ rw known (enforce-Lawful s x e)
      | inr new ↦
          let noted : Reaper = record s { reported = insert name r s.reported } in
          let (y, fine) = enforce-Lawful noted (record { bound = x.bound; ending = x.ending }) e in
          rw new (
            y,
            AllFine-append c seen h (report c h start r (r.written_ms / 1000))
                (enforce c h name r noted).effects
                (report-AllFine c seen h c.is_live start r (r.written_ms / 1000)) fine,
          )
    ]

    -- A process that is matched for the first time.
    bound-Explained :
        (s : Reaper)
        → Explained c seen s
        → lookup name s.bound ≡ none
        → Recognised c name b h
        → Explained c seen (record s { bound = insert name b s.bound })
    bound-Explained s x free seen_now = record {
      bound = λ n b' f. elim (Bool-cases (name == n)) [
        | inl same ↦ (
          h,
          here,
          subst (λ m. Recognised c m b' h) (eq_of_== name n same)
              (subst (λ z. Recognised c name z h)
                (some-injective b b' (ground (arith, lookup-insert name n b s.bound))) seen_now),
        )
        | inr other ↦ x.bound n b' (ground (arith, lookup-insert name n b s.bound))
      ];
      ending = λ n t f.
          let (b', g, k, m, a) = x.ending n t f in
          (
            b',
            ground (
              arith,
              lookup-insert name n b s.bound,
              λ (q : name ≡ n). ap (λ z. lookup z s.bound) q,
              eq_of_== name n,
            ),
            k,
            m,
            a,
          );
    }

    bind-Lawful :
        (s : Reaper) (proc : Proc) (o : Option ℕ)
        → Explained c seen s
        → lookup r.pid h.snapshot ≡ some proc
        → lookup name s.bound ≡ o
        → Lawful c seen h (bind c h name r proc b s o)
    bind-Lawful s proc none x found e = elim (Bool-cases (c.is_connection h.snapshot proc)) [
      | inr other ↦ rw other (drop-Lawful c seen h name s x)
      | inl accepted ↦ elim (Bool-cases (ltb (r.written_ms / 1000) b)) [
        | inl young ↦ rw (accepted, young) (drop-Lawful c seen h name s x)
        | inr old ↦
            rw (accepted, old)
              (watch-Lawful (record s { bound = insert name b s.bound })
                (bound-Explained s x e (record {
                  entry = r;
                  proc = proc;
                  read = read;
                  found = found;
                  start_time = started;
                  accepted = accepted;
                  older = ground arith;
                }))
                (ground (arith, lookup-insert name name b s.bound)))
      ]
    ]
    bind-Lawful s proc (some b') x found e = elim (Bool-cases (b' == b)) [
      | inl same ↦ rw same (watch-Lawful s x (e ∙ ap some (eq_of_== b' b same)))
      | inr other ↦ rw other (drop-Lawful c seen h name s x)
    ]

  pub handle-Lawful :
      (name : String) (s : Reaper)
      → Memᴰ h seen
      → Explained c seen s
      → Lawful c seen h (handle c h name s)
  unfolding handle
  handle-Lawful name s here x = elim (Option-cases (read_record name (h.file name))) [
    | inl e ↦ rw (e, handle_record) (drop-Lawful c seen h name s x)
    | inr (r, e) ↦ elim (Option-cases (lookup r.pid h.snapshot)) [
      | inl f ↦ rw (e, handle_record, f, match_proc) (drop-Lawful c seen h name s x)
      | inr (proc, f) ↦ elim (Option-cases (h.start_time r.pid)) [
        | inl g ↦
            rw (e, handle_record, f, match_proc, g, match_started) (drop-Lawful c seen h name s x)
        | inr (b, g) ↦
            rw (e, handle_record, f, match_proc, g, match_started)
              (bind-Lawful here name r b e g s proc (lookup name s.bound) x f refl)
      ]
    ]
  ]
