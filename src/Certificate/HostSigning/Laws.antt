-- ===== src/Certificate/HostSigning/Laws.antt =====
-- The certificates of a host: one for each key, numbered in order.
use pf.Base.{
  ℕ, zero, suc, ◌+◌, ◌≡◌, refl, sym, ◌∙◌, ap, some, List, [], ◌∷◌, ◌++◌, length, map, map_same,
}
use pf.Base.Int.{sub_ℕ}
use pf.Http.{ok, ok-injective, >>=-inverts, or_crash-inverts}
use pf.Certificate.{Library, create_host}
use pf.Certificate.Tables.{Identity, host_key, SigningKey, Store, Entry, certificate_create_host}
use pf.Certificate.UserSigning.{Env, read_current, first_key, reserve}
use pf.Certificate.HostSigning.{host_identifier, Signed, sign_keys, sign_host_certificate}

-- `range(first, first + n)`
abbrev pub range : ℕ → ℕ → List ℕ
range first zero = []
range first (suc n) = first ∷ range (suc first) n

abbrev pub zip_with : {A B C : Type 0} → (A → B → C) → List A → List B → List C
zip_with f [] ys = []
zip_with f (x ∷ xs) [] = []
zip_with f (x ∷ xs) (y ∷ ys) = f x y ∷ zip_with f xs ys

module _ (lib : Library) (env : Env lib) (caller : Identity) where
  -- The certificate of a key with a serial number: for the name of the caller, from now on.
  abbrev pub numbered : lib.PrivateKey → lib.PublicKey → ℕ → lib.Certificate
  numbered signer k serial =
      create_host lib k serial (host_identifier caller.id caller.name) (caller.name ∷ [])
        (sub_ℕ env.now 10) (env.now + env.config.host_certificate_lifetime) signer

  sign_keys_serials :
      {B : Type 0} (f : ℕ → B) (signer : lib.PrivateKey) (first : ℕ) (keys : List lib.PublicKey)
      → map (λ c. f c.serial_number) (sign_keys lib env caller signer first keys)
        ≡ map f (range first (length keys))
  unfolding sign_keys
  sign_keys_serials f signer first [] = refl
  sign_keys_serials f signer first (k ∷ keys) =
      ap (λ ns. f first ∷ ns) (sign_keys_serials f signer (suc first) keys)

  sign_keys_certificates :
      (signer : lib.PrivateKey) (first : ℕ) (keys : List lib.PublicKey)
      → map (λ c. c.certificate) (sign_keys lib env caller signer first keys)
        ≡ zip_with (numbered signer) keys (range first (length keys))
  unfolding sign_keys
  sign_keys_certificates signer first [] = refl
  sign_keys_certificates signer first (k ∷ keys) =
      ap (λ cs. numbered signer k first ∷ cs) (sign_keys_certificates signer (suc first) keys)

  -- The certificates that sign_host_certificate returns are those of the keys, in order, for the name
  -- of the caller, by a current host key, with consecutive serial numbers from a range of that length
  -- that was reserved; and the audit log gets one entry for each of them.
  pub sign_host_certificate-numbered :
      (keys : List lib.PublicKey) (s s' : Store lib.PrivateKey) (signed : List (Signed lib))
      → sign_host_certificate lib env caller keys s ≡ ok (signed, s')
      → (signer : SigningKey lib.PrivateKey) × (first : ℕ) × (t : Store lib.PrivateKey) × (first_key
            lib
            (read_current lib host_key env.config.host_key_staging_period env.first_now
              s.signing_keys)
          ≡ some signer)
        × (reserve lib env.moves (length keys) signer s ≡ ok (first, t))
        × (map (λ c. c.serial_number) signed ≡ range first (length keys))
        × (map (λ c. c.certificate) signed
            ≡ zip_with (numbered signer.key) keys (range first (length keys)))
        × (s'.entries
            ≡ t.entries
              ++ map
                  (λ n.
                    certificate_create_host signer.id n
                      (caller.name ∷ [])
                      (sub_ℕ env.now 10)
                      (env.now + env.config.host_certificate_lifetime))
                  (range first (length keys)))
  unfolding sign_host_certificate
  sign_host_certificate-numbered keys s s' signed h =
      let (signer, current, h₁) = >>=-inverts _ _ h in
      let (reserved, has_reserved, h₂) =
        >>=-inverts (reserve lib env.moves (length keys) signer s) _ h₁ in
      let e = ok-injective h₂ in
      let entry : ℕ → Entry = λ n.
        certificate_create_host signer.id n (caller.name ∷ []) (sub_ℕ env.now 10)
          (env.now + env.config.host_certificate_lifetime) in
      (
        signer,
        reserved.0,
        reserved.1,
        or_crash-inverts _ current,
        has_reserved,
        ap (λ x. map (λ c. c.serial_number) x.0) (sym e)
            ∙ sign_keys_serials (λ n. n) signer.key reserved.0 keys
            ∙ map_same (range reserved.0 (length keys)),
        ap (λ x. map (λ c. c.certificate) x.0) (sym e)
            ∙ sign_keys_certificates signer.key reserved.0 keys,
        ap (λ x. x.1.entries) (sym e)
            ∙ ap (λ es. reserved.1.entries ++ es)
                (sign_keys_serials entry signer.key reserved.0 keys),
      )
