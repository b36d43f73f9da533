-- ===== src/Signature/Verify/Laws.antt =====
-- When `verify` accepts a request, and what a request that it refuses leaves behind.
use mathlib.Core.Path.{subst}
use mathlib.Core.List.{Memᴰ}
use mathlib.Core.List.Memᴰ.{head, tail}
use pf.Base.{
  ℕ, ◌+◌, ◌≡◌, refl, sym, ap, ◌∙◌, ◌↔◌, ◌⊎◌, inl, inr, Bool, true, false, Option, some, List, [],
  ◌∷◌, String, string_eq, contains, all, forall_of_all, all_of_forall, mem_of_contains, ==_refl,
  arith,
}
use pf.Base.Int.{ℤ, add_ℕ, le_int, lt_int}
use pf.Http.{ok, fail_if, ok-injective, Outcome-cases, >>=-inverts}
use pf.Signature.Message.{Value, Parser, Request}
use pf.Signature.NonceStore.{check_and_add}
use pf.Signature.NonceStore.Laws.{call, Call, IsAccepted, call_iff}
use pf.Signature.Verify.{
  freshness_window_seconds, max_future_skew_seconds, is_supported, Crypto, Signed, Server, reject,
  expected_covered, covers_expected, read_signed, check_time, signature_of, use_nonce, after_check,
  finish, prepare, verify,
}

fail_if-ok :
    (b : Bool) (status : ℕ) (title : String) {u : Unit {0}}
    → fail_if b status title ≡ ok u
    → b ≡ false
fail_if-ok true status title h = cc
fail_if-ok false status title h = refl

check_time-ok :
    (now : ℕ) (created : ℤ)
    → check_time now created ≡ ok tt
    → (lt_int (now + max_future_skew_seconds) created ≡ false)
      × (le_int now (add_ℕ created freshness_window_seconds) ≡ true)
unfolding check_time
check_time-ok now created h =
    let (_, early, late) = >>=-inverts _ _ h in
    (fail_if-ok _ _ _ early, ground (arith, fail_if-ok _ _ _ late))

-- The call of the nonce store for a request that read `p`.
abbrev pub nonce_call : ℕ → String → Signed → Call
nonce_call now key_id p = record {
  key_id = key_id;
  nonce = p.nonce;
  now = now;
  created = p.created;
}

contains_of_mem : (c : String) {xs : List String} → Memᴰ c xs → contains xs c ≡ true
contains_of_mem c (head e) = ground (arith, e, ==_refl c)
contains_of_mem c (tail m) = ground (arith, contains_of_mem c m)

contains_of_all :
    (xs ys : List String)
    → all (λ c. contains ys c) xs ≡ true
    → (c : String) → contains xs c ≡ true
    → contains ys c ≡ true
contains_of_all xs ys h c m = forall_of_all (λ c. contains ys c) h (mem_of_contains c xs m)

covers_expected-contains :
    (items : List String)
    → covers_expected items ≡ true
    → (c : String) → contains items c ≡ contains expected_covered c
unfolding covers_expected
covers_expected-contains items h c = ground (
  arith,
  contains_of_all items expected_covered (ground arith) c,
  contains_of_all expected_covered items (ground arith) c,
)

contains-covers_expected :
    (items : List String)
    → ((c : String) → contains items c ≡ contains expected_covered c)
    → covers_expected items ≡ true
unfolding covers_expected
contains-covers_expected items h =
    let there =
      all_of_forall (λ c. contains expected_covered c) items
        λ c m. sym (h c) ∙ contains_of_mem c m in
    let back =
      all_of_forall (λ c. contains items c) expected_covered λ c m. h c ∙ contains_of_mem c m in
    rw (there, back) refl

module _ (crypto : Crypto) (parse : Parser) (now : ℕ) (request : Request) (key_id : String) where
  -- What the headers give, with the clock in the window.
  pub record IsPrepared (p : Signed) (sig_bytes : Value) (sig_base : String) : Type 0 where
    pub read : read_signed crypto parse request key_id ≡ ok p
    pub not_future : lt_int (now + max_future_skew_seconds) p.created ≡ false
    pub is_fresh : le_int now (add_ℕ p.created freshness_window_seconds) ≡ true
    pub signature : signature_of crypto parse request p ≡ ok (sig_bytes, sig_base)

  prepare-IsPrepared :
      (p : Signed) (v : Value) (b : String)
      → prepare crypto parse now request key_id ≡ ok (p, v, b)
      → IsPrepared p v b
  unfolding prepare
  prepare-IsPrepared p v b h =
      let (q, read, h₁) = >>=-inverts (read_signed crypto parse request key_id) _ h in
      let (_, time, h₂) = >>=-inverts (check_time now q.created) _ h₁ in
      let (sig, signature, h₃) = >>=-inverts (signature_of crypto parse request q) _ h₂ in
      subst (λ (x : Signed × Value × String). IsPrepared x.0 x.1 x.2) (ok-injective h₃)
        (record {
          read = read;
          not_future = (check_time-ok now q.created time).0;
          is_fresh = (check_time-ok now q.created time).1;
          signature = signature;
        })

  IsPrepared-prepare :
      (p : Signed) (v : Value) (b : String)
      → IsPrepared p v b
      → prepare crypto parse now request key_id ≡ ok (p, v, b)
  unfolding prepare check_time
  IsPrepared-prepare p v b h = rw (h.read, h.not_future, h.is_fresh, h.signature)

module _ (crypto : Crypto) (parse : Parser) (now : ℕ) (request : Request) (key_id : String)
    (key : crypto.Key) (audit_identity_id : Option ℕ) (s : Server) where
  -- What an accepted request shows, with what it leaves in the nonce store. The covered components
  -- are five, in any order.
  pub record IsVerified (s' : Server) : Type 0 where
    pub signed : Signed
    pub sig_bytes : Value
    pub sig_base : String
    pub prepared : IsPrepared crypto parse now request key_id signed sig_bytes sig_base
    pub supported : is_supported (crypto.key_type key) ≡ true
    pub is_valid : crypto.check key sig_base sig_bytes ≡ some true
    pub covers :
        (c : String)
        → contains signed.inner.items c
          ≡ contains
              ("@authority" ∷ "@method" ∷ "@target-uri" ∷ "@signature-params" ∷ "content-digest"
                ∷ [])
              c
    pub nonce : IsAccepted s.nonce_store s'.nonce_store (nonce_call now key_id signed)
    pub others_same : s' ≡ record s { nonce_store = s'.nonce_store }

  finish-ok :
      (p : Signed) (v : Value) (b : String) (s' : Server)
      → finish crypto parse now key_id key audit_identity_id p s (v, b) ≡ (ok tt, s')
      → (is_supported (crypto.key_type key) ≡ true)
        × (crypto.check key b v ≡ some true)
        × (covers_expected p.inner.items ≡ true)
        × ((check_and_add s.nonce_store key_id p.nonce now p.created).1 ≡ true)
        × (s' ≡ record s {
          nonce_store = (check_and_add s.nonce_store key_id p.nonce now p.created).0;
        })
  unfolding finish after_check use_nonce
  finish-ok p v b s' h = ground arith

  ok-finish :
      (p : Signed) (v : Value) (b : String) (s' : Server)
      → is_supported (crypto.key_type key) ≡ true
      → crypto.check key b v ≡ some true
      → covers_expected p.inner.items ≡ true
      → (check_and_add s.nonce_store key_id p.nonce now p.created).1 ≡ true
      → s' ≡ record s { nonce_store = (check_and_add s.nonce_store key_id p.nonce now p.created).0 }
      → finish crypto parse now key_id key audit_identity_id p s (v, b) ≡ (ok tt, s')
  unfolding finish after_check use_nonce
  ok-finish p v b s' h₁ h₂ h₃ h₄ h₅ = ground arith

  stored_call :
      (p : Signed) (s' : Server)
      → (check_and_add s.nonce_store key_id p.nonce now p.created).1 ≡ true
      → s' ≡ record s { nonce_store = (check_and_add s.nonce_store key_id p.nonce now p.created).0 }
      → call s.nonce_store (nonce_call now key_id p) ≡ (s'.nonce_store, true)
  stored_call p s' new remembered i = (sym (ap (λ (x : Server). x.nonce_store) remembered) i, new i)

  others_kept :
      (p : Signed) (s' : Server)
      → s' ≡ record s { nonce_store = (check_and_add s.nonce_store key_id p.nonce now p.created).0 }
      → s' ≡ record s { nonce_store = s'.nonce_store }
  others_kept p s' remembered =
      remembered
      ∙ ap (λ n. record s { nonce_store = n }) (sym (ap (λ (x : Server). x.nonce_store) remembered))

  -- The call of the nonce store of an accepted request.
  pub verified_call :
      (s' : Server) (v : IsVerified s')
      → call s.nonce_store (nonce_call now key_id v.signed) ≡ (s'.nonce_store, true)
  verified_call s' v =
      (call_iff s.nonce_store s'.nonce_store (nonce_call now key_id v.signed)).1 v.nonce

  pub verified_server :
      (s' : Server) (v : IsVerified s')
      → s' ≡ record s { nonce_store = (call s.nonce_store (nonce_call now key_id v.signed)).0 }
  verified_server s' v =
      v.others_same
      ∙ ap (λ n. record s { nonce_store = n }) (sym (ap (λ c. c.0) (verified_call s' v)))

  -- A request is accepted exactly when its headers can be read, its clock is in the window, the key
  -- is of a supported type, the signature is valid over the text rebuilt from the request, the
  -- covered components are the five expected ones, it is not created before the start of the nonce
  -- store, and the key id with the nonce is in no entry that the store keeps; and then the store has
  -- lost the entries at its front whose time is over, and has the pair with its time; nothing else
  -- changes.
  pub verify_iff :
      (s' : Server)
      → (verify crypto parse now request key_id key audit_identity_id s ≡ (ok tt, s'))
        ↔ IsVerified s'
  unfolding verify
  verify_iff s' = (accepted, accepts)
    where
      accepted :
          verify crypto parse now request key_id key audit_identity_id s ≡ (ok tt, s')
          → IsVerified s'
      accepted h = elim (Outcome-cases (prepare crypto parse now request key_id)) [
        | inl ((p, v, b), e) ↦
            let (supported, valid, covers, is_new, remembered) =
              finish-ok p v b s' (ground arith) in
            record {
              signed = p;
              sig_bytes = v;
              sig_base = b;
              prepared = prepare-IsPrepared crypto parse now request key_id p v b e;
              supported = supported;
              is_valid = valid;
              covers = unfold expected_covered in covers_expected-contains p.inner.items covers;
              nonce =
                  (call_iff s.nonce_store s'.nonce_store (nonce_call now key_id p)).0
                    (stored_call p s' is_new remembered);
              others_same = others_kept p s' remembered;
            }
        | inr (inl (q, e)) ↦ ground arith
        | inr (inr e) ↦ ground arith
      ]

      accepts :
          IsVerified s'
          → verify crypto parse now request key_id key audit_identity_id s ≡ (ok tt, s')
      accepts v = ground (
        arith,
        IsPrepared-prepare crypto parse now request key_id v.signed v.sig_bytes v.sig_base
            v.prepared,
        ok-finish v.signed v.sig_bytes v.sig_base s' v.supported v.is_valid
            (contains-covers_expected v.signed.inner.items (unfold expected_covered in v.covers))
            (ap (λ c. c.1) (verified_call s' v)) (verified_server s' v),
      )

module _ (crypto : Crypto) (parse : Parser) (now : ℕ) (request : Request) (key_id : String)
    (key : crypto.Key) (audit_identity_id : Option ℕ) (s : Server) where
  -- The nonce store took part: the signature was good, and the headers were prepared.
  pub record IsConsulted (s' : Server) : Type 0 where
    pub signed : Signed
    pub sig_bytes : Value
    pub sig_base : String
    pub prepared : IsPrepared crypto parse now request key_id signed sig_bytes sig_base
    pub is_valid : crypto.check key sig_base sig_bytes ≡ some true
    pub covers : covers_expected signed.inner.items ≡ true
    pub stored :
        s'.nonce_store ≡ (check_and_add s.nonce_store key_id signed.nonce now signed.created).0

  finish_store :
      (p : Signed) (v : Value) (b : String)
      → let s' = (finish crypto parse now key_id key audit_identity_id p s (v, b)).1 in
        (s'.nonce_store ≡ s.nonce_store)
        ⊎ ((crypto.check key b v ≡ some true)
            × (covers_expected p.inner.items ≡ true)
            × (s'.nonce_store ≡ (check_and_add s.nonce_store key_id p.nonce now p.created).0))
  unfolding finish after_check use_nonce reject
  finish_store p v b = ground arith

  -- Whatever comes of a request, the nonces are as they were, unless its signature is valid over
  -- the text rebuilt from the request, in the window of the clock, and covers what it should; then
  -- the store is what the one call of `check_and_add` leaves.
  pub verify_store :
      let s' = (verify crypto parse now request key_id key audit_identity_id s).1 in
      (s'.nonce_store ≡ s.nonce_store) ⊎ IsConsulted s'
  unfolding verify
  verify_store = elim (Outcome-cases (prepare crypto parse now request key_id)) [
    | inl ((p, v, b), e) ↦ elim (finish_store p v b) [
      | inl same ↦ inl (ground arith)
      | inr (valid, covers, stored) ↦ inr (record {
        signed = p;
        sig_bytes = v;
        sig_base = b;
        prepared = prepare-IsPrepared crypto parse now request key_id p v b e;
        is_valid = valid;
        covers = covers;
        stored = ground arith;
      })
    ]
    | inr (inl (q, e)) ↦ inl (ground arith)
    | inr (inr e) ↦ inl (ground arith)
  ]
