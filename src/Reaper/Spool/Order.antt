-- ===== src/Reaper/Spool/Order.antt =====
-- Events of one session reach the server in the order in which they were written.
use mathlib.Core.List.{map-append}
use pf.Base.{
  ℕ, suc, max, map, Bool, ◌&&◌, all, all-append, leb, ltb, nat_eq, String, true, false,
  if◌then◌else◌, ◌==◌, string_eq, pair_eq, List, [], ◌∷◌, ◌++◌, append_assoc, append_nil, ◌≡◌, refl,
  sym, ap, ◌∙◌, arith, Bool-cases, inl, inr,
}
use pf.Reaper.Spool.{
  Entry, Surroundings, Spool, Step, write, pass, Event, is_valid, insert_name, sorted_names,
  write_event, forward_each, forward, run_passes,
}
use pf.Reaper.Spool.Passing.{of_session, IsLasting, forward_lem, forward_each-of_session}
use pf.Reaper.Spool.Sorted.{
  forward_each-all, is_sorted, forward_each_sorted, sorted_same, insert_last, is_sorted-append,
}

abbrev pub AllLasting : List Step → Type 0
AllLasting [] = Unit
AllLasting (write now_us can_write e ∷ steps) = AllLasting steps
AllLasting (pass h ∷ steps) = IsLasting h × AllLasting steps

-- The events of a session, in the order of the files.
abbrev pub events_of : String × String → List Entry → List Event
events_of k files = map (λ f. f.1) (of_session k files)

events_of-append :
    (k : String × String) (es fs : List Entry)
    → events_of k (es ++ fs) ≡ events_of k es ++ events_of k fs
events_of-append k [] fs = refl
events_of-append k (e ∷ es) fs = ground (arith, events_of-append k es fs)

-- What a session has of the events that are written to the directory, in order.
abbrev pub written_of : String × String → List Step → List Event
written_of k [] = []
written_of k (write now_us can_write e ∷ steps) =
    let rest = written_of k steps in
    if is_valid e && can_write && (e.connection_id, e.session_id) == k then e ∷ rest else rest
written_of k (pass h ∷ steps) = written_of k steps

-- The files in the order of their names, and a bound on their stamps.
record IsListed (s : Spool) (files : List Entry) : Type 0 where
  listed : sorted_names s.files ≡ files
  ordered : is_sorted files ≡ true
  bounded : all (λ f. leb f.0 s.last_us) files ≡ true

bounded_more :
    (n m : ℕ) (files : List Entry)
    → leb n m ≡ true
    → all (λ f. leb f.0 n) files ≡ true
    → all (λ f. leb f.0 m) files ≡ true
bounded_more n m [] h b = refl
bounded_more n m (f ∷ fs) h b = ground (arith, bounded_more n m fs)

below_next :
    (n m : ℕ) (files : List Entry)
    → ltb n m ≡ true
    → all (λ f. leb f.0 n) files ≡ true
    → all (λ f. ltb f.0 m) files ≡ true
below_next n m [] h b = refl
below_next n m (f ∷ fs) h b = ground (arith, below_next n m fs)

write_event-IsListed :
    (now_us : ℕ) (e : Event) (s : Spool) (files : List Entry)
    → is_valid e ≡ true
    → IsListed s files
    → IsListed (write_event now_us true e s) (files ++ ((max now_us (suc s.last_us), e) ∷ []))
unfolding write_event sorted_names
write_event-IsListed now_us e s files valid l =
    let stamp = max now_us (suc s.last_us) in
    let f : Entry = (stamp, e) in
    let below = below_next s.last_us stamp files (ground arith) l.bounded in
    rw valid (record {
      listed = ap (insert_name f) l.listed ∙ insert_last f files below;
      ordered = is_sorted-append f files l.ordered below;
      bounded = ground (
        arith,
        all-append (λ g. leb g.0 stamp) files (f ∷ []),
        bounded_more s.last_us stamp files (ground arith) l.bounded,
      );
    })

unwritten-IsListed :
    (now_us : ℕ) (e : Event) (s : Spool) (files : List Entry)
    → is_valid e ≡ true
    → IsListed s files
    → IsListed (write_event now_us false e s) files
unfolding write_event
unwritten-IsListed now_us e s files valid l = rw valid (record {
  listed = l.listed;
  ordered = l.ordered;
  bounded = bounded_more s.last_us (max now_us (suc s.last_us)) files (ground arith) l.bounded;
})

invalid_same :
    (now_us : ℕ) (can_write : Bool) (e : Event) (s : Spool)
    → is_valid e ≡ false
    → write_event now_us can_write e s ≡ s
unfolding write_event
invalid_same now_us can_write e s invalid = rw invalid refl

-- What a pass sends and leaves of the files in their order.
module _ (h : Surroundings) (lasting : IsLasting h) (s : Spool) (files : List Entry)
    (l : IsListed s files) where
  forward_files :
      ((forward h s.files).sent ≡ (forward_each h [] files).sent)
      × ((forward h s.files).left ≡ (forward_each h [] files).left)
  forward_files =
      let (sent, left) = forward_lem h ("", "") lasting s.files in
      (
        sent ∙ ap (λ fs. (forward_each h [] fs).sent) l.listed,
        left ∙ ap (λ fs. (forward_each h [] fs).left) l.listed,
      )

  forward-IsListed :
      IsListed (record s { files = (forward h s.files).left }) (forward_each h [] files).left
  forward-IsListed =
      let ordered = forward_each_sorted h [] files l.ordered in
      record {
        listed =
            ap sorted_names forward_files.1 ∙ sorted_same (forward_each h [] files).left ordered;
        ordered = ordered;
        bounded = forward_each-all h (λ f. leb f.0 s.last_us) [] files l.bounded;
      }

  events_of-forward :
      (k : String × String)
      → events_of k (forward h s.files).sent ++ events_of k (forward_each h [] files).left
        ≡ events_of k files
  events_of-forward k =
      ap (λ fs. events_of k fs ++ events_of k (forward_each h [] files).left) forward_files.0
      ∙ sym (
          map-append (λ f. f.1) (of_session k (forward_each h [] files).sent)
            (of_session k (forward_each h [] files).left))
      ∙ ap (map (λ f. f.1)) (forward_each-of_session h k lasting [] files refl)

run_passes-IsListed :
    (k : String × String) (steps : List Step) (s : Spool) (files : List Entry)
    → IsListed s files
    → AllLasting steps
    → let r = run_passes steps s in
      events_of k r.sent ++ events_of k (sorted_names r.spool.files)
      ≡ events_of k files ++ written_of k steps
unfolding run_passes
run_passes-IsListed k [] s files l lasting =
    ap (events_of k) l.listed ∙ sym (append_nil (events_of k files))
run_passes-IsListed k (write now_us can_write e ∷ steps) s files l lasting =
    let after = write_event now_us can_write e s in
    elim (Bool-cases (is_valid e)) [
      | inr invalid ↦
          let same = invalid_same now_us can_write e s invalid in
          ap
            (λ s'.
              events_of k (run_passes steps s').sent
              ++ events_of k (sorted_names (run_passes steps s').spool.files))
            same
          ∙ run_passes-IsListed k steps s files l lasting
          ∙ rw invalid refl
      | inl valid ↦ elim (Bool-cases can_write) [
        | inr fails ↦
            let next : IsListed after files =
              rw fails (unwritten-IsListed now_us e s files valid l) in
            run_passes-IsListed k steps after files next lasting ∙ rw (valid, fails) refl
        | inl writes ↦
            let f : Entry = (max now_us (suc s.last_us), e) in
            let next : IsListed after (files ++ (f ∷ [])) =
              rw writes (write_event-IsListed now_us e s files valid l) in
            run_passes-IsListed k steps after (files ++ (f ∷ [])) next lasting
            ∙ ground (
              arith,
              events_of-append k files (f ∷ []),
              append_assoc (events_of k files) (events_of k (f ∷ [])) (written_of k steps),
            )
      ]
    ]
run_passes-IsListed k (pass h ∷ steps) s files l lasting =
    let p = forward h s.files in
    let left = (forward_each h [] files).left in
    let s' : Spool = record s { files = p.left } in
    let rest = run_passes steps s' in
    ap (λ es. es ++ events_of k (sorted_names rest.spool.files))
      (events_of-append k p.sent rest.sent)
    ∙ append_assoc (events_of k p.sent) (events_of k rest.sent)
        (events_of k (sorted_names rest.spool.files))
    ∙ ap (λ es. events_of k p.sent ++ es)
        (run_passes-IsListed k steps s' left (forward-IsListed h lasting.0 s files l) lasting.1)
    ∙ sym (append_assoc (events_of k p.sent) (events_of k left) (written_of k steps))
    ∙ ap (λ es. es ++ written_of k steps) (events_of-forward h lasting.0 s files l k)

-- Over any writes of one process and any passes, from an empty spool, whatever the clock says, where in
-- every pass each file can be read and removed and none is too old: what the server accepted of a
-- session, followed by what still waits of it, in the order of the names, is what was written of it,
-- in order. No event is lost, sent twice or sent before an earlier one.
pub run_passes-events_of :
    (k : String × String) (steps : List Step)
    → AllLasting steps
    → let r = run_passes steps (record { last_us = 0; files = [] }) in
      events_of k r.sent ++ events_of k (sorted_names r.spool.files) ≡ written_of k steps
run_passes-events_of k steps lasting =
    run_passes-IsListed k steps (record { last_us = 0; files = [] }) []
      (record { listed = unfold sorted_names in refl; ordered = refl; bounded = refl }) lasting
