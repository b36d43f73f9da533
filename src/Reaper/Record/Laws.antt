-- ===== src/Reaper/Record/Laws.antt =====
-- What read_record accepts, and that it reads what write_record writes.
use pf.Base.{
  leb, ◌<◌, ◌^◌, ℕ, String, Bool, true, false, not, ◌&&◌, ltb, ◌==◌, ==_refl, eq_of_==, get_or,
  nat_eq, string_eq, pair_eq, Option, none, some, ◌≡◌, refl, sym, ap, ◌∙◌, inl, inr, arith,
  Option-cases,
}
use pf.Base.Text.{decimal}
use pf.Base.Int.{pos}
use pf.Base.Dict.{Dict, lookup}
use pf.Reaper.Names.{is_connection_id, match_record_name, record_name}
use pf.Reaper.Names.Laws.{match_record_name-record_name, match_record_name_splits}
use pf.Reaper.Record.Size.{IsShort, size-content}
use pf.Reaper.Record.{
  Record, Json, int, Loaded, object, Stat, File, max_pid, positive_int, read_deadline, checked,
  with_number, read_fields, read_loaded, read_opened, read_named, read_record, written_deadline,
  written, write_record, content, text_size, written_file, max_record_bytes,
}

abbrev pub above_zero : Option ℕ → Bool
above_zero none = true
above_zero (some n) = ltb 0 n

-- The bounds that a record keeps.
abbrev pub in_bounds : Record → Bool
in_bounds r =
    ltb 1 r.pid
    && ltb r.pid max_pid
    && ltb 0 r.written_ms
    && above_zero r.deadline
    && is_connection_id r.connection_id

deadline-written_deadline :
    (d : Option ℕ) → above_zero d ≡ true → read_deadline (some (written_deadline d)) ≡ some d
deadline-written_deadline none h = refl
deadline-written_deadline (some n) h = ground arith

checked_lem :
    (r : Record)
    → in_bounds r ≡ true
    → checked (decimal r.pid, r.connection_id) r.pid r.written_ms r.deadline r.connection_id
      ≡ some r
unfolding checked
checked_lem r h = ground (arith, ==_refl {A = String × String} (decimal r.pid, r.connection_id))

read_fields-written :
    (r : Record)
    → in_bounds r ≡ true
    → read_fields (decimal r.pid, r.connection_id) (written r) ≡ some r
unfolding read_fields with_number nat_eq string_eq
read_fields-written r h = ground (arith, deadline-written_deadline r.deadline, checked_lem r)

-- Where json.loads gives the keys and values of the text that json.dumps writes for them: a record
-- within its bounds, with times of at most twenty digits, is read back from the file that is written
-- for it, which is not too large.
pub read_record-write_record :
    (loads : String → Loaded) (r : Record)
    → loads (write_record r).1 ≡ object (written r)
    → in_bounds r ≡ true
    → r.written_ms < 10 ^ 20
    → IsShort r.deadline
    → read_record (write_record r).0 (written_file loads (write_record r).1) ≡ some r
unfolding read_record write_record written_file
read_record-write_record loads r inverse h w d =
    let fits : leb (text_size (content r)) max_record_bytes ≡ true =
      ground (arith, size-content r (ground arith) w d (ground arith)) in
    rw (match_record_name-record_name r.pid r.connection_id (ground arith), fits, inverse)
      (read_fields-written r h)

-- The bounds, and the name of the file.
abbrev Fits : String × String → Record → Type 0
Fits groups r = (in_bounds r ≡ true) × ((decimal r.pid, r.connection_id) ≡ groups)

checked-Fits :
    (groups : String × String) (pid written_ms : ℕ) (deadline : Option ℕ) (connection_id : String)
    {r : Record}
    → ltb 0 written_ms ≡ true
    → above_zero deadline ≡ true
    → checked groups pid written_ms deadline connection_id ≡ some r
    → Fits groups r
unfolding checked
checked-Fits groups pid written_ms deadline connection_id {r} w d h =
    let fits : (not (ltb 1 pid && ltb pid max_pid) ≡ false) = ground arith in
    let valid : is_connection_id connection_id ≡ true = ground arith in
    let named : ((decimal pid, connection_id) == groups) ≡ true = ground arith in
    let same : (decimal pid, connection_id) ≡ groups =
      eq_of_== {A = String × String} (decimal pid, connection_id) groups named in
    (
      ground arith,
      ap (λ q. (decimal (get_or q r).pid, (get_or q r).connection_id)) (sym h)
          ∙ rw (fits, valid, named) same,
    )

with_number-Fits {ℓ} :
    {A : Type ℓ} (groups : String × String) {o : Option A} {next : A → Option Record} {r : Record}
    → with_number o next ≡ some r
    → ((a : A) → o ≡ some a → next a ≡ some r → Fits groups r)
    → Fits groups r
unfolding with_number
with_number-Fits groups {o = none} h k = cc
with_number-Fits groups {o = some a} h k = k a refl h

positive_int-above : (v : Option Json) {n : ℕ} → positive_int v ≡ some n → ltb 0 n ≡ true
positive_int-above none h = cc
positive_int-above (some (int (pos n))) h = ground arith
positive_int-above (some _) h = cc

read_deadline-above :
    (v : Option Json) {d : Option ℕ} → read_deadline v ≡ some d → above_zero d ≡ true
read_deadline-above none h = cc
read_deadline-above (some (int (pos n))) h = ground arith
read_deadline-above (some _) h = ground arith

read_fields-Fits :
    (groups : String × String) (fields : Dict String Json) {r : Record}
    → read_fields groups fields ≡ some r
    → Fits groups r
unfolding read_fields
read_fields-Fits groups fields h = with_number-Fits groups h λ deadline d h.
    with_number-Fits groups h λ pid p h. with_number-Fits groups h λ written_ms w h.
      with_number-Fits groups h λ connection_id c h.
        checked-Fits groups pid written_ms deadline connection_id
          (positive_int-above (lookup "written_ms" fields) w)
          (read_deadline-above (lookup "deadline" fields) d) h

read_record-Fits :
    (name : String) (file : File) {r : Record}
    → read_record name file ≡ some r
    → (groups : String × String) × (match_record_name name ≡ some groups) × Fits groups r
unfolding read_record
read_record-Fits name file {r} h = elim (Option-cases (match_record_name name)) [
  | inl e ↦ ground arith
  | inr (groups, e) ↦ (groups, e, named groups (sym (ap (λ g. read_named g file) e) ∙ h))
]
  where
    loaded : (groups : String × String) (l : Loaded) → read_loaded groups l ≡ some r → Fits groups r
    loaded groups (object fields) k = read_fields-Fits groups fields k
    loaded groups _ k = cc

    opened :
        (groups : String × String) (o : Option (Stat × Loaded))
        → read_opened groups o ≡ some r
        → Fits groups r
    opened groups none k = cc
    opened groups (some (info, l)) k = loaded groups l (ground arith)

    named : (groups : String × String) → read_named (some groups) file ≡ some r → Fits groups r
    named groups k = elim (Option-cases file.linked) [
      | inl e ↦ ground arith
      | inr (info, e) ↦ opened groups file.opened (ground arith)
    ]

-- What is read is within its bounds, and stands in the file that record_name gives it.
pub read_record-record_name :
    (name : String) (file : File) {r : Record}
    → read_record name file ≡ some r
    → (in_bounds r ≡ true) × (name ≡ record_name r.pid r.connection_id)
unfolding record_name
read_record-record_name name file h =
    let (groups, e, fits) = read_record-Fits name file h in
    let (bounds, same) = fits in (bounds, match_record_name_splits name (e ∙ ap some (sym same)))
