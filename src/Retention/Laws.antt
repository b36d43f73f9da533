-- ===== src/Retention/Laws.antt =====
-- What a purge leaves.
use pf.Base.{
  suc, ◌+◌, ◌<◌, min, ◌≡◌, refl, sym, ◌∙◌, ap, Bool, true, false, ◌&&◌, ◌||◌, List, [], ◌∷◌, ◌++◌,
  String, string_eq, nat_eq, contains, any, filter, length, length-append, length-take, take, arith,
  any-append, any-filter, contains-append,
}
use pf.Live.Registry.{LiveSession}
use pf.Retention.{
  Settings, activity_types, exempt_types, audit, activity, exempt, retention_class, Entry, past,
  audit_expired, activity_expired, entry_batch, session_expired, insert_by_end, sort_by_end,
  session_batch,
}
use pf.Retention.Batch.{any-take, any_of_length}

-- No exempt type is an activity type.
disjoint_types : (t : String) → contains exempt_types t ≡ true → contains activity_types t ≡ false
unfolding exempt_types activity_types string_eq
disjoint_types t h = elim (string_eq.dec "tenant-update" t) [
  | yes p ↦ rw (sym p) refl
  | no n ↦ elim (string_eq.dec "tenant-purge-expired" t) [
    | yes p ↦ rw (sym p) refl
    | no m ↦ absurd (ground arith)
  ]
]

module _ (settings : Settings) where
  open settings use {audit_retention_days, activity_retention_days, now, batch_size}

  -- Past the period of its class; an exempt entry never is.
  abbrev pub expired : Entry → Bool
  expired e = elim (retention_class e.type) [
    | audit ↦ past now audit_retention_days e.at
    | activity ↦ past now activity_retention_days e.at
    | exempt ↦ false
  ]

  expired_either :
      (e : Entry) → (audit_expired settings e || activity_expired settings e) ≡ expired e
  unfolding audit_expired activity_expired retention_class
  expired_either e =
      ground (arith, contains-append e.type activity_types exempt_types, disjoint_types e.type)

any_either :
    (p₁ p₂ p : Entry → Bool) (xs : List Entry)
    → ((x : Entry) → (p₁ x || p₂ x) ≡ p x)
    → (any p₁ xs || any p₂ xs) ≡ any p xs
any_either p₁ p₂ p [] h = refl
any_either p₁ p₂ p (x ∷ xs) h = ground (arith, h x, any_either p₁ p₂ p xs)

module _ (settings : Settings) where
  pub entry_batch_rows :
      (entries : List Entry) (q : Entry → Bool)
      → any q (entry_batch settings entries) ≡ true
      → any (λ e. expired settings e && q e) entries ≡ true
  unfolding entry_batch
  entry_batch_rows entries q h =
      let n = settings.batch_size in
      let audit_rows = filter (audit_expired settings) entries in
      let activity_rows = filter (activity_expired settings) entries in
      let both : any q (take n audit_rows ++ take n activity_rows) ≡ true =
        any-take q n (take n audit_rows ++ take n activity_rows) h in
      let one : (any q audit_rows || any q activity_rows) ≡ true = ground (
        arith,
        both,
        any-append q (take n audit_rows) (take n activity_rows),
        any-take q n audit_rows,
        any-take q n activity_rows,
      ) in
      sym (
        any_either (λ e. audit_expired settings e && q e) (λ e. activity_expired settings e && q e)
          (λ e. expired settings e && q e) entries (λ e. ground (arith, expired_either settings e)))
      ∙ sym (
          ap (λ b. b || any (λ e. activity_expired settings e && q e) entries)
            (any-filter q (audit_expired settings) entries))
      ∙ sym (ap (λ b. any q audit_rows || b) (any-filter q (activity_expired settings) entries))
      ∙ one

  pub entry_batch_empty :
      (entries : List Entry)
      → 0 < settings.batch_size
      → length (entry_batch settings entries) ≡ 0
      → any (expired settings) entries ≡ false
  unfolding entry_batch
  entry_batch_empty entries positive h =
      let n = settings.batch_size in
      let audit_rows = filter (audit_expired settings) entries in
      let activity_rows = filter (activity_expired settings) entries in
      let sizes : min n (min n (length audit_rows) + min n (length activity_rows)) ≡ 0 = omega (
        arith,
        h,
        length-take n (take n audit_rows ++ take n activity_rows),
        length-append (take n audit_rows) (take n activity_rows),
        length-take n audit_rows,
        length-take n activity_rows,
      ) in
      let no_audit : any (audit_expired settings) entries ≡ false =
        any_of_length (audit_expired settings) entries (omega (arith, sizes, positive)) in
      let no_activity : any (activity_expired settings) entries ≡ false =
        any_of_length (activity_expired settings) entries (omega (arith, sizes, positive)) in
      sym (
        any_either (audit_expired settings) (activity_expired settings) (expired settings) entries
          (expired_either settings))
      ∙ rw (no_audit, no_activity) refl

  any-insert :
      (q : LiveSession → Bool) (s : LiveSession) (ss : List LiveSession)
      → any q (insert_by_end s ss) ≡ (q s || any q ss)
  unfolding insert_by_end
  any-insert q s [] = refl
  any-insert q s (t ∷ ts) = ground (arith, any-insert q s ts)

  any-sort : (q : LiveSession → Bool) (ss : List LiveSession) → any q (sort_by_end ss) ≡ any q ss
  unfolding sort_by_end
  any-sort q [] = refl
  any-sort q (s ∷ ss) = any-insert q s (sort_by_end ss) ∙ ap (λ b. q s || b) (any-sort q ss)

  length-insert :
      (s : LiveSession) (ss : List LiveSession) → length (insert_by_end s ss) ≡ suc (length ss)
  unfolding insert_by_end
  length-insert s [] = refl
  length-insert s (t ∷ ts) = ground (arith, length-insert s ts)

  length-sort : (ss : List LiveSession) → length (sort_by_end ss) ≡ length ss
  unfolding sort_by_end
  length-sort [] = refl
  length-sort (s ∷ ss) = length-insert s (sort_by_end ss) ∙ ap suc (length-sort ss)

  pub session_batch_rows :
      (sessions : List LiveSession) (q : LiveSession → Bool)
      → any q (session_batch settings sessions) ≡ true
      → any (λ s. session_expired settings s && q s) sessions ≡ true
  unfolding session_batch
  session_batch_rows sessions q h =
      let expired_rows = filter (session_expired settings) sessions in
      sym (any-filter q (session_expired settings) sessions)
      ∙ sym (any-sort q expired_rows)
      ∙ any-take q settings.batch_size (sort_by_end expired_rows) h

  pub session_batch_empty :
      (sessions : List LiveSession)
      → 0 < settings.batch_size
      → length (session_batch settings sessions) ≡ 0
      → any (session_expired settings) sessions ≡ false
  unfolding session_batch
  session_batch_empty sessions positive h =
      let expired_rows = filter (session_expired settings) sessions in
      any_of_length (session_expired settings) sessions (
        omega (
          arith,
          h,
          positive,
          length-take settings.batch_size (sort_by_end expired_rows),
          length-sort expired_rows,
        ))
