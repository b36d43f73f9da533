-- ===== src/Retention/Exact.antt =====
-- A purge ends, and deletes the expired rows and no others.
use pf.Base.{
  suc, ◌<◌, ◌≡◌, refl, sym, ◌∙◌, ap, true, false, not, Option, none, some, map, ◌==◌, string_eq,
  nat_eq, contains, any, filter, length, arith, Bool-cases, inl, inr,
}
use pf.Live.Registry.{LiveSession}
use pf.Retention.{
  Settings, Entry, Tables, Run, entry_batch, entry_round, session_expired, session_batch,
  session_round, purge, fresh,
}
use pf.Retention.Rounds.{rounds, rounds_end}
use pf.Retention.Batch.{distinct_by, filter_all, filter-without, length-without, distinct_by-filter}
use pf.Retention.Laws.{
  expired, entry_batch_rows, entry_batch_empty, session_batch_rows, session_batch_empty,
}

abbrev pub result_of : Run → Option Run → Run
result_of r none = r
result_of r (some r') = r'

module _ (settings : Settings) where
  -- What a transaction of the first loop does to the tables.
  entry_round_lem :
      (r r' : Run)
      → entry_round settings r ≡ some r'
      → (r'.tables.entries
          ≡ filter
              (λ x. not (contains (map (λ e. e.id) (entry_batch settings r.tables.entries)) x.id))
              r.tables.entries)
        × (r'.tables.sessions ≡ r.tables.sessions)
        × (length r'.tables.entries < length r.tables.entries)
  unfolding entry_round
  entry_round_lem r r' h =
      let rows = r.tables.entries in
      let batch = entry_batch settings rows in
      elim (Bool-cases (length batch == 0)) [
        | inl e ↦ absurd (ground arith)
        | inr e ↦
            let left : r'.tables.entries
                ≡ filter (λ x. not (contains (map (λ e. e.id) batch) x.id)) rows =
              ap (λ o. (result_of r o).tables.entries) (sym h) ∙ rw e refl in
            (
              left,
              ap (λ o. (result_of r o).tables.sessions) (sym h) ∙ rw e refl,
              omega (
                arith,
                ap length left,
                length-without (λ (e : Entry). e.id) (expired settings) rows batch
                    (entry_batch_rows settings rows) (ground arith),
              ),
            )
      ]

  session_round_lem :
      (r r' : Run)
      → session_round settings r ≡ some r'
      → (r'.tables.sessions
          ≡ filter
              (λ x.
                not (contains (map (λ s. s.id) (session_batch settings r.tables.sessions)) x.id))
              r.tables.sessions)
        × (r'.tables.entries ≡ r.tables.entries)
        × (length r'.tables.sessions < length r.tables.sessions)
  unfolding session_round
  session_round_lem r r' h =
      let rows = r.tables.sessions in
      let batch = session_batch settings rows in
      elim (Bool-cases (length batch == 0)) [
        | inl e ↦ absurd (ground arith)
        | inr e ↦
            let left : r'.tables.sessions
                ≡ filter (λ x. not (contains (map (λ s. s.id) batch) x.id)) rows =
              ap (λ o. (result_of r o).tables.sessions) (sym h) ∙ rw e refl in
            (
              left,
              ap (λ o. (result_of r o).tables.entries) (sym h) ∙ rw e refl,
              omega (
                arith,
                ap length left,
                length-without (λ (s : LiveSession). s.id) (session_expired settings) rows batch
                    (session_batch_rows settings rows) (ground arith),
              ),
            )
      ]

  purge_both :
      (t : Tables) (r₁ r : Run)
      → rounds (suc (length t.entries)) (entry_round settings) (fresh t) ≡ some r₁
      → rounds (suc (length t.sessions)) (session_round settings) r₁ ≡ some r
      → purge settings t ≡ some r
  unfolding purge
  purge_both t r₁ r first second = rw (purge, first) second

  -- The loops one after the other, with what each of them keeps.
  purge_end :
      (Kept₁ : Run → Type 0) (Kept₂ : Run → Run → Type 0) (t : Tables)
      → ((r r' : Run) → Kept₁ r → entry_round settings r ≡ some r' → Kept₁ r')
      → ((r₁ r r' : Run) → Kept₂ r₁ r → session_round settings r ≡ some r' → Kept₂ r₁ r')
      → Kept₁ (fresh t)
      → ((r₁ : Run) → Kept₁ r₁ → Kept₂ r₁ r₁)
      → (r₁ r : Run) × (purge settings t ≡ some r)
        × Kept₁ r₁
        × (entry_round settings r₁ ≡ none)
        × Kept₂ r₁ r
        × (session_round settings r ≡ none)
  purge_end Kept₁ Kept₂ t keeps₁ keeps₂ start next =
      let (r₁, returns₁, (k₁, same), stop₁) =
        rounds_end (entry_round settings) (λ r. length r.tables.entries)
          (λ r. Kept₁ r × (r.tables.sessions ≡ t.sessions))
          (λ r r' k h.
            let (_, sessions_same, smaller) = entry_round_lem r r' h in
            ((keeps₁ r r' k.0 h, sessions_same ∙ k.1), smaller))
          (suc (length t.entries)) (fresh t) (start, refl) (omega arith) in
      let (r, returns, k, stop) =
        rounds_end (session_round settings) (λ r. length r.tables.sessions) (Kept₂ r₁)
          (λ r r' k h. (keeps₂ r₁ r r' k h, (session_round_lem r r' h).2)) (suc (length t.sessions))
          r₁ (next r₁ k₁) (omega (arith, ap length same)) in
      (r₁, r, purge_both t r₁ r returns₁ returns, k₁, stop₁, k, stop)

  -- Whatever the settings and the tables are, the rounds are enough.
  pub purge_returns : (t : Tables) → (r : Run) × (purge settings t ≡ some r)
  purge_returns t =
      let (_, r, returns, _, _, _, _) =
        purge_end (λ _. Unit {0}) (λ _ _. Unit {0}) t (λ _ _ _ _. tt) (λ _ _ _ _ _. tt) tt
          (λ _ _. tt) in
      (r, returns)

  -- The rounds of the first loop on the tables `t`.
  record EntriesKept (t : Tables) (r : Run) : Type 0 where
    kept :
        filter (λ e. not (expired settings e)) r.tables.entries
        ≡ filter (λ e. not (expired settings e)) t.entries
    distinct : distinct_by (λ (e : Entry). e.id) r.tables.entries ≡ true
    sessions_same : r.tables.sessions ≡ t.sessions

  entry_round-EntriesKept :
      (t : Tables) (r r' : Run)
      → EntriesKept t r
      → entry_round settings r ≡ some r'
      → EntriesKept t r'
  entry_round-EntriesKept t r r' k h =
      let rows = r.tables.entries in
      let batch = entry_batch settings rows in
      let from_rows = entry_batch_rows settings rows in
      let (left, same, _) = entry_round_lem r r' h in
      record {
        kept =
            ap (filter (λ e. not (expired settings e))) left
            ∙ filter-without (λ (e : Entry). e.id) (expired settings) rows batch from_rows
                k.distinct
            ∙ k.kept;
        distinct =
            ap (distinct_by (λ (e : Entry). e.id)) left
            ∙ distinct_by-filter (λ (e : Entry). e.id) (expired settings) rows batch from_rows _
                rows k.distinct;
        sessions_same = same ∙ k.sessions_same;
      }

  -- The rounds of the second loop, after which nothing is left to do in the first table.
  record SessionsKept (t : Tables) (r : Run) : Type 0 where
    kept :
        filter (λ s. not (session_expired settings s)) r.tables.sessions
        ≡ filter (λ s. not (session_expired settings s)) t.sessions
    distinct : distinct_by (λ (s : LiveSession). s.id) r.tables.sessions ≡ true
    entries_same : r.tables.entries ≡ t.entries

  session_round-SessionsKept :
      (t : Tables) (r r' : Run)
      → SessionsKept t r
      → session_round settings r ≡ some r'
      → SessionsKept t r'
  session_round-SessionsKept t r r' k h =
      let rows = r.tables.sessions in
      let batch = session_batch settings rows in
      let from_rows = session_batch_rows settings rows in
      let (left, same, _) = session_round_lem r r' h in
      record {
        kept =
            ap (filter (λ s. not (session_expired settings s))) left
            ∙ filter-without (λ (s : LiveSession). s.id) (session_expired settings) rows batch
                from_rows k.distinct
            ∙ k.kept;
        distinct =
            ap (distinct_by (λ (s : LiveSession). s.id)) left
            ∙ distinct_by-filter (λ (s : LiveSession). s.id) (session_expired settings) rows batch
                from_rows _ rows k.distinct;
        entries_same = same ∙ k.entries_same;
      }

module _ (settings : Settings) (positive : 0 < settings.batch_size) where
  entry_round_stops :
      (r : Run) → entry_round settings r ≡ none → any (expired settings) r.tables.entries ≡ false
  unfolding entry_round
  entry_round_stops r h = entry_batch_empty settings r.tables.entries positive (ground arith)

  session_round_stops :
      (r : Run)
      → session_round settings r ≡ none
      → any (session_expired settings) r.tables.sessions ≡ false
  unfolding session_round
  session_round_stops r h = session_batch_empty settings r.tables.sessions positive (ground arith)

  -- Where no id stands twice, purge_tenant ends, within one round more than there are rows for each
  -- of its loops; it leaves the entries that are not past the period of their retention class, with
  -- every exempt entry, and the sessions that are open or ended within the activity period, in their
  -- order, whatever the size of a batch is, if it is positive.
  pub purge-expired :
      (t : Tables)
      → distinct_by (λ (e : Entry). e.id) t.entries ≡ true
      → distinct_by (λ (s : LiveSession). s.id) t.sessions ≡ true
      → (r : Run) × (purge settings t ≡ some r)
        × (r.tables.entries ≡ filter (λ e. not (expired settings e)) t.entries)
        × (r.tables.sessions ≡ filter (λ s. not (session_expired settings s)) t.sessions)
  purge-expired t d₁ d₂ =
      let (r₁, r, returns, k₁, stop₁, k₂, stop₂) =
        purge_end settings (EntriesKept settings t) (λ r₁. SessionsKept settings r₁.tables) t
          (entry_round-EntriesKept settings t) (λ r₁. session_round-SessionsKept settings r₁.tables)
          (record { kept = refl; distinct = d₁; sessions_same = refl })
          (λ r₁ k₁. record {
            kept = refl;
            distinct = ap (distinct_by (λ (s : LiveSession). s.id)) k₁.sessions_same ∙ d₂;
            entries_same = refl;
          }) in
      (
        r,
        returns,
        k₂.entries_same
            ∙ sym (filter_all (expired settings) r₁.tables.entries (entry_round_stops r₁ stop₁))
            ∙ k₁.kept,
        sym (filter_all (session_expired settings) r.tables.sessions (session_round_stops r stop₂))
            ∙ k₂.kept
            ∙ ap (filter (λ s. not (session_expired settings s))) k₁.sessions_same,
      )
