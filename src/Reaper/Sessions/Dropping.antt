-- ===== src/Reaper/Sessions/Dropping.antt =====
-- Dropping a record signals nothing, and what is explained stays so.
use pf.Base.{
  ℕ, ◌/◌, String, Bool, true, false, if◌then◌else◌, ◌==◌, nat_eq, string_eq, Option, none, some,
  List, [], ◌∷◌, ◌++◌, ◌≡◌, inl, inr, arith, Bool-cases,
}
use pf.Base.Dict.{Dict, lookup, erase, lookup-erase}
use pf.Reaper.Record.{Record}
use pf.Reaper.Sessions.{Effect, reported, Reaper, Settings, Host, report_end, forget, drop}
use pf.Reaper.Spool.{EventKind, end}
use pf.Reaper.Sessions.Authority.{Explained, AllFine, Lawful}

module _ (c : Settings) (seen : List Host) (h : Host) where
  pub AllFine-append :
      (es fs : List Effect)
      → AllFine c seen h es
      → AllFine c seen h fs
      → AllFine c seen h (es ++ fs)
  AllFine-append [] fs p q = q
  AllFine-append (e ∷ es) fs p q = (p.0, AllFine-append es fs p.1 q)

  pub report-AllFine :
      (b : Bool) (kind : EventKind) (r : Record) (at : ℕ)
      → AllFine c seen h (if b then reported kind r at ∷ [] else [])
  report-AllFine true kind r at = (tt, tt)
  report-AllFine false kind r at = tt

  report_end-AllFine :
      (name : String) (r : Option Record) → AllFine c seen h (report_end c h name r)
  report_end-AllFine name none = tt
  report_end-AllFine name (some r) = report-AllFine c.is_live end r (h.now name / 1000)

  erase_inverts :
      {V : Type 0} (name n : String) (d : Dict String V) {v : V}
      → lookup n (erase name d) ≡ some v
      → ((name == n) ≡ false) × (lookup n d ≡ some v)
  erase_inverts name n d e = ground (arith, lookup-erase name n d)

  pub forget-Lawful :
      (name : String) (s : Reaper) → Explained c seen s → Lawful c seen h (forget c h name s)
  unfolding forget
  forget-Lawful name s x = (
    record {
      bound = λ n b e. x.bound n b (erase_inverts name n s.bound e).1;
      ending = λ n t e.
          let (other, old) = erase_inverts name n s.ending e in
          let (b, f, k, m, a) = x.ending n t old in
          (b, ground (arith, lookup-erase name n s.bound), k, m, a);
    },
    report_end-AllFine name (lookup name s.reported),
  )

  pub drop-Lawful :
      (name : String) (s : Reaper) → Explained c seen s → Lawful c seen h (drop c h name s)
  unfolding drop
  drop-Lawful name s x = elim (Bool-cases (h.unlinks name)) [
    | inl e ↦ rw e (let (y, f) = forget-Lawful name s x in (y, (tt, f)))
    | inr e ↦ rw e (x, tt)
  ]
