-- ===== src/Reaper/Spool/Passing.antt =====
-- What a pass over the spool does with the events of one session.
use pf.Base.{
  not, nat_eq, String, true, false, ◌||◌, if◌then◌else◌, ◌==◌, eq_of_==, string_eq, pair_eq,
  contains, filter, List, [], ◌∷◌, ◌++◌, ◌≡◌, refl, ap, ◌∙◌, arith, Bool-cases, inl, inr,
}
use pf.Reaper.Spool.{
  Entry, session, Surroundings, sorted_names, read_events, forward_each, is_over_age, expire_files,
  forward,
}

-- The events of one session, in order.
abbrev pub of_session : String × String → List Entry → List Entry
of_session k files = filter (λ f. session f == k) files

-- Every file can be read and removed, and none is too old.
abbrev pub IsLasting : Surroundings → Type 0
IsLasting h =
    (f : Entry)
    → (h.unlinks f.0 ≡ true) × (is_over_age h.now (h.changed f.0) ≡ false) × (h.reads f ≡ true)

module _ (h : Surroundings) (k : String × String) (lasting : IsLasting h) where
  -- Whom a round blocks.
  abbrev next : List (String × String) → Entry → List (String × String)
  next blocked f =
      if contains blocked (session f) || h.accepts f then blocked else session f ∷ blocked

  blocked_of :
      (blocked : List (String × String)) (files : List Entry)
      → contains blocked k ≡ true
      → let p = forward_each h blocked files in
        (of_session k p.sent ≡ []) × (of_session k p.left ≡ of_session k files)
  unfolding forward_each
  blocked_of blocked [] b = (refl, refl)
  blocked_of blocked (f ∷ fs) b = elim (Bool-cases (contains blocked (session f))) [
    | inl waits ↦ let (x, y) = blocked_of blocked fs b in rw waits (x, ground arith)
    | inr free ↦ elim (Bool-cases (h.accepts f)) [
      | inl sent ↦
          let (x, y) = blocked_of blocked fs b in
          let other : (session f == k) ≡ false = ground (
            arith,
            eq_of_== {A = String × String} (session f) k,
            λ (q : session f ≡ k). ap (contains blocked) q,
          ) in
          rw (free, sent, (lasting f).0, other) (x, y)
      | inr refused ↦
          let (x, y) = blocked_of (session f ∷ blocked) fs (ground arith) in
          rw (free, refused) (x, ground arith)
    ]
  ]

  pub forward_each-of_session :
      (blocked : List (String × String)) (files : List Entry)
      → contains blocked k ≡ false
      → let p = forward_each h blocked files in
        of_session k p.sent ++ of_session k p.left ≡ of_session k files
  unfolding forward_each
  forward_each-of_session blocked [] b = refl
  forward_each-of_session blocked (f ∷ fs) b = elim (Bool-cases (contains blocked (session f))) [
    | inl waits ↦
        let other : (session f == k) ≡ false = ground (
          arith,
          eq_of_== {A = String × String} (session f) k,
          λ (q : session f ≡ k). ap (contains blocked) q,
        ) in
        rw (waits, other) (forward_each-of_session blocked fs b)
    | inr free ↦ elim (Bool-cases (h.accepts f)) [
      | inl sent ↦
          let rest = forward_each-of_session blocked fs b in
          rw (free, sent, (lasting f).0) (ground (arith, rest))
      | inr refused ↦ elim (Bool-cases (session f == k)) [
        | inl own ↦
            let (x, y) = blocked_of (session f ∷ blocked) fs (ground arith) in
            rw (free, refused, own, x) (ground (arith, y))
        | inr other ↦
            rw (free, refused, other)
              (forward_each-of_session (session f ∷ blocked) fs (ground arith))
      ]
    ]
  ]

  expire_files_lem : (files : List Entry) → expire_files h files ≡ files
  unfolding expire_files
  expire_files_lem [] = refl
  expire_files_lem (f ∷ fs) = ground (arith, (lasting f).1, expire_files_lem fs)

  reads_all : (files : List Entry) → filter h.reads files ≡ files
  reads_all [] = refl
  reads_all (f ∷ fs) = ground (arith, (lasting f).2, reads_all fs)

  none_unread : (files : List Entry) → filter (λ f. not (h.reads f)) files ≡ []
  none_unread [] = refl
  none_unread (f ∷ fs) = ground (arith, (lasting f).2, none_unread fs)

  pub forward_lem :
      (files : List Entry)
      → ((forward h files).sent ≡ (forward_each h [] (sorted_names files)).sent)
        × ((forward h files).left ≡ (forward_each h [] (sorted_names files)).left)
  unfolding forward read_events
  forward_lem files =
      let listed = reads_all (sorted_names files) in
      (
        ap (λ l. (forward_each h [] l).sent) listed,
        rw (none_unread files) (
            ap (λ l. expire_files h (forward_each h [] l).left) listed
            ∙ expire_files_lem (forward_each h [] (sorted_names files)).left),
      )
