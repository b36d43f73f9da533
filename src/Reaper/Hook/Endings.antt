-- ===== src/Reaper/Hook/Endings.antt =====
-- When the hook makes a session end.
use pf.Base.{
  ℕ, ◌+◌, max, String, Bool, true, not, ◌&&◌, ◌||◌, leb, if◌then◌else◌, ◌==◌, nat_eq, string_eq,
  contains, is_some, Option, none, some, List, [], ◌∷◌, ◌++◌, ◌≡◌, refl, ap, ◌∙◌, arith, Bool-cases,
  inl, inr,
}
use pf.Reaper.Hook.{
  SessionCert, Surroundings, Action, reported, recorded, unrecorded, terminated, timer,
  timer_stopped, cert_from_auth_info, announce, end_at, set_deadline, is_untold, open_with,
  handle_open_session,
}

-- The sessions that the actions end, and when: at once, or when a timer runs out.
abbrev pub endings : ℕ → List Action → List (String × ℕ)
endings now [] = []
endings now (terminated session ∷ xs) = (session, now) ∷ endings now xs
endings now (timer connection session seconds ∷ xs) = (session, now + seconds) ∷ endings now xs
endings now (reported _ _ _ _ ∷ xs) = endings now xs
endings now (recorded _ _ ∷ xs) = endings now xs
endings now (unrecorded _ _ ∷ xs) = endings now xs
endings now (timer_stopped _ ∷ xs) = endings now xs

-- The deadline of a certificate that binds the session.
abbrev pub binding : List String → Option SessionCert → Option ℕ
binding trusted none = none
binding trusted (some cert) =
    if contains trusted cert.signer && is_some cert.connection_id
    then cert.session_deadline
    else none

abbrev pub ended_by : String → ℕ → Option ℕ → List (String × ℕ)
ended_by session now none = []
ended_by session now (some deadline) =
    if session == "" then [] else (session, max now deadline) ∷ []

module _ (h : Surroundings) where
  endings-append :
      (xs bs : List Action) → endings h.now (xs ++ bs) ≡ endings h.now xs ++ endings h.now bs
  endings-append [] bs = refl
  endings-append (terminated s ∷ xs) bs = ap (λ l. (s, h.now) ∷ l) (endings-append xs bs)
  endings-append (timer c s n ∷ xs) bs = ap (λ l. (s, h.now + n) ∷ l) (endings-append xs bs)
  endings-append (reported _ _ _ _ ∷ xs) bs = endings-append xs bs
  endings-append (recorded _ _ ∷ xs) bs = endings-append xs bs
  endings-append (unrecorded _ _ ∷ xs) bs = endings-append xs bs
  endings-append (timer_stopped _ ∷ xs) bs = endings-append xs bs

  endings-announce : (c : Option String) → endings h.now (announce h c) ≡ []
  endings-announce none = refl
  endings-announce (some c) = ground arith

  endings-end_at :
      (c : String) (d : ℕ) → endings h.now (end_at h c d) ≡ (h.session_id, max h.now d) ∷ []
  endings-end_at c d = elim (Bool-cases (leb d h.now)) [
    | inl e ↦ rw e (ap (λ t. (h.session_id, t) ∷ []) (ground arith))
    | inr e ↦ rw e (ap (λ t. (h.session_id, t) ∷ []) (ground arith))
  ]

  endings-set_deadline :
      (d : Option ℕ) (c : Option String)
      → endings h.now (set_deadline h d c)
        ≡ ended_by h.session_id h.now (if is_some c then d else none)
  endings-set_deadline none none = refl
  endings-set_deadline none (some c) = refl
  endings-set_deadline (some d) none = refl
  endings-set_deadline (some d) (some c) = elim (Bool-cases (h.session_id == "")) [
    | inl e ↦ rw e refl
    | inr e ↦ rw e (endings-end_at c d)
  ]

  untold_none :
      (d : Option ℕ) (c : Option String) (b : Bool)
      → (not (is_some d) && (not (is_some c) || b)) ≡ true
      → d ≡ none
  untold_none none c b e = refl
  untold_none (some d) c b e = cc

  endings-open_with :
      (o : Option SessionCert)
      → endings h.now (open_with h o) ≡ ended_by h.session_id h.now (binding h.trusted o)
  endings-open_with none = refl
  endings-open_with (some cert) = elim (Bool-cases (is_untold h cert)) [
    | inl e ↦
        let free : cert.session_deadline ≡ none =
          untold_none cert.session_deadline cert.connection_id (not h.live_events && not h.sessions)
            e in
        ground (arith, free)
    | inr e ↦ elim (Bool-cases (contains h.trusted cert.signer)) [
      | inl t ↦
          rw (e, t)
            (endings-append (announce h cert.connection_id)
                (set_deadline h cert.session_deadline cert.connection_id)
              ∙ ap
                  (λ l.
                    l ++ endings h.now (set_deadline h cert.session_deadline cert.connection_id))
                  (endings-announce cert.connection_id)
              ∙ endings-set_deadline cert.session_deadline cert.connection_id)
      | inr t ↦ rw (e, t) refl
    ]
  ]

  -- Opening a session makes at most that session end, exactly if the certificate is signed by a
  -- trusted key and has a connection and a deadline, and the session has an id: at the deadline, or
  -- at once if that is past.
  pub endings-handle_open_session :
      (parse : String → Option SessionCert)
      → endings h.now (handle_open_session h parse)
        ≡ ended_by h.session_id h.now (binding h.trusted (cert_from_auth_info parse h.auth_info))
  unfolding handle_open_session
  endings-handle_open_session parse = endings-open_with (cert_from_auth_info parse h.auth_info)
