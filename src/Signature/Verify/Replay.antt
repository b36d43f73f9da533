-- ===== src/Signature/Verify/Replay.antt =====
-- A request that was accepted is never accepted again.
use mathlib.Core.Path.{subst}
use pf.Base.{
  ℕ, ◌≡◌, ◌≢◌, refl, ap, ◌∙◌, sym, inl, inr, true, false, Option, List, [], ◌∷◌, String, arith, all,
  leb,
}
use pf.Base.Int.{ℤ, add_ℕ, le_int, le_int_of_le}
use pf.Http.{Outcome, ok, ok-injective}
use pf.Signature.Message.{Parser, Request}
use pf.Signature.NonceStore.{NonceStore}
use pf.Signature.NonceStore.Laws.{
  Call, call, Remembers, call-Remembers, accepted-Remembers, Remembers-refused,
}
use pf.Signature.Verify.{freshness_window_seconds, Crypto, Signed, Server, read_signed, verify}
use pf.Signature.Verify.Laws.{IsVerified, verified_call, verify_iff, verify_store}

module _ (crypto : Crypto) (parse : Parser) where
  -- The arguments of a call of `verify`, with the time at which it runs.
  pub record Attempt : Type 0 where
    pub now : ℕ
    pub request : Request
    pub key_id : String
    pub key : crypto.Key
    pub audit_identity_id : Option ℕ

  abbrev pub attempt : Server → Attempt → Outcome (Unit {0}) × Server
  attempt s a = verify crypto parse a.now a.request a.key_id a.key a.audit_identity_id s

  pub attempts : Server → List Attempt → Server
  attempts s [] = s
  attempts s (a ∷ as') = attempts (attempt s a).1 as'

  attempt-Remembers :
      (s : Server) (k : String × String) (e : ℤ) (a : Attempt)
      → Remembers s.nonce_store k e
      → le_int a.now e ≡ true
      → Remembers (attempt s a).1.nonce_store k e
  attempt-Remembers s k e a h live =
      elim (verify_store crypto parse a.now a.request a.key_id a.key a.audit_identity_id s) [
        | inl same ↦ subst (λ n. Remembers n k e) (sym same) h
        | inr c ↦
            subst (λ n. Remembers n k e) (sym c.stored)
              (call-Remembers s.nonce_store k e
                (record {
                  key_id = a.key_id;
                  nonce = c.signed.nonce;
                  now = a.now;
                  created = c.signed.created;
                })
                h live)
      ]

  accepted-IsVerified :
      (s : Server) (a : Attempt)
      → (attempt s a).0 ≡ ok tt
      → IsVerified crypto parse a.now a.request a.key_id a.key a.audit_identity_id s (attempt s a).1
  accepted-IsVerified s a h =
      (verify_iff crypto parse a.now a.request a.key_id a.key a.audit_identity_id s
          (attempt s a).1).0
        (λ i. (h i, (attempt s a).1))

  -- The call of the nonce store in an attempt that read `p`.
  call_of : Attempt → Signed → Call
  call_of a p = record { key_id = a.key_id; nonce = p.nonce; now = a.now; created = p.created }

  -- What an accepted attempt leaves, in terms of what its headers hold.
  accepted_facts :
      (s : Server) (a : Attempt) (p : Signed)
      → (attempt s a).0 ≡ ok tt
      → read_signed crypto parse a.request a.key_id ≡ ok p
      → (Remembers
          (attempt s a).1.nonce_store
          (a.key_id, p.nonce)
          (add_ℕ p.created s.nonce_store.window_seconds))
        × (le_int a.now (add_ℕ p.created freshness_window_seconds) ≡ true)
        × ((call s.nonce_store (call_of a p)).1 ≡ true)
  unfolding call_of
  accepted_facts s a p h read =
      let v = accepted-IsVerified s a h in
      let called =
        verified_call crypto parse a.now a.request a.key_id a.key a.audit_identity_id s
          (attempt s a).1 v in
      let new : (call s.nonce_store (call_of a v.signed)).1 ≡ true = ap (λ c. c.1) called in
      let same : v.signed ≡ p = ok-injective (sym v.prepared.read ∙ read) in
      subst
        (λ (p : Signed).
          (Remembers (attempt s a).1.nonce_store (a.key_id, p.nonce)
            (add_ℕ p.created s.nonce_store.window_seconds))
          × (le_int a.now (add_ℕ p.created freshness_window_seconds) ≡ true)
          × ((call s.nonce_store (call_of a p)).1 ≡ true))
        same
        (
          subst
              (λ (n : NonceStore).
                Remembers n (a.key_id, v.signed.nonce)
                  (add_ℕ v.signed.created s.nonce_store.window_seconds))
              (ap (λ c. c.0) called) (accepted-Remembers s.nonce_store (call_of a v.signed) new),
          v.prepared.is_fresh,
          new,
        )

  live_between :
      (now : ℕ) (e : ℤ) (between : List Attempt)
      → le_int now e ≡ true
      → all (λ a. leb a.now now) between ≡ true
      → all (λ a. le_int a.now e) between ≡ true
  live_between now e [] live h = refl
  live_between now e (a ∷ as') live h =
      ground (arith, live_between now e as' live, le_int_of_le a.now now e (ground arith) live)

  attempts-Remembers :
      (k : String × String) (e : ℤ) (between : List Attempt) (s : Server)
      → Remembers s.nonce_store k e
      → all (λ a. le_int a.now e) between ≡ true
      → Remembers (attempts s between).nonce_store k e
  unfolding attempts
  attempts-Remembers k e [] s h live = h
  attempts-Remembers k e (a ∷ as') s h live =
      attempts-Remembers k e as' (attempt s a).1 (attempt-Remembers s k e a h (ground arith))
        (ground arith)

  -- With a nonce store that remembers for the freshness window: after a request was accepted, no
  -- request with the same key id, nonce and time of creation is accepted, whatever was tried in
  -- between, if the clock was never later in between than it is at that request.
  pub replay_refused :
      (s : Server) (first second : Attempt) (between : List Attempt) (p q : Signed)
      → s.nonce_store.window_seconds ≡ freshness_window_seconds
      → (attempt s first).0 ≡ ok tt
      → read_signed crypto parse first.request first.key_id ≡ ok p
      → read_signed crypto parse second.request second.key_id ≡ ok q
      → second.key_id ≡ first.key_id
      → q.nonce ≡ p.nonce
      → q.created ≡ p.created
      → all (λ a. leb a.now second.now) between ≡ true
      → (attempt (attempts (attempt s first).1 between) second).0 ≢ ok tt
  replay_refused s first second between p q window first_ok read_p read_q same_key same_nonce
        same_created ordered second_ok =
      let (remembers, _, _) = accepted_facts s first p first_ok read_p in
      let s' = attempts (attempt s first).1 between in
      let (_, live, new) = accepted_facts s' second q second_ok read_q in
      let e = add_ℕ p.created freshness_window_seconds in
      let live' : le_int second.now e ≡ true = rw same_created at live in
      let still : Remembers s'.nonce_store (first.key_id, p.nonce) e =
        attempts-Remembers (first.key_id, p.nonce) e between (attempt s first).1
          (subst
            (λ (w : ℕ).
              Remembers (attempt s first).1.nonce_store (first.key_id, p.nonce) (add_ℕ p.created w))
            window remembers)
          (live_between second.now e between live' ordered) in
      let refused : (call s'.nonce_store (call_of second q)).1 ≡ false =
        Remembers-refused s'.nonce_store (call_of second q) e
          (unfold call_of in rw (same_key, same_nonce) still) (unfold call_of in live') in
      cc (new, refused)
