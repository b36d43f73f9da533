-- ===== src/Certificate/Principals/Laws.antt =====
-- A certificate opens the account that it was issued for, on the host that it was issued for, and
-- nothing else.
use Prim.Native.String.{◌++◌ as ◌<>◌}
use pf.Base.{
  ℕ, ◌≡◌, refl, ◌∙◌, ap, true, not, [], ◌∷◌, String, ◌==◌, nat_eq, string_eq, if◌then◌else◌, arith,
}
use pf.Base.Text.{decimal}
use pf.Base.Text.Decimal.{lacks, lacks-decimal, decimal_inj}
use pf.Cli.{value, ui_error, split, split-lacks, split-separator}
use pf.Certificate.HostSigning.{host_identifier}
use pf.Certificate.UserSigning.{principal}
use pf.Certificate.Principals.{accept_principal, accept_principals, authorized_principals}

split-host_identifier :
    (id : ℕ) (name : String) → split 58 (host_identifier id name) ≡ decimal id ∷ split 58 name
unfolding host_identifier
split-host_identifier id name =
    split-separator 58 (decimal id) _ name (lacks-decimal 58 id refl) refl

split-principal :
    (username : String) (id : ℕ)
    → lacks 64 username ≡ true
    → split 64 (principal username id) ≡ username ∷ decimal id ∷ []
unfolding principal
split-principal username id h =
    split-separator 64 username _ (decimal id) h refl
    ∙ ap (λ ts. username ∷ ts) (split-lacks 64 (decimal id) (lacks-decimal 64 id refl))

decimal_eq : (m n : ℕ) → (decimal m == decimal n) ≡ (m == n)
decimal_eq m n = ground (arith, decimal_inj m n)

-- The certificate of a user for an account on one host, shown to the `sshd` of a host for an account:
-- its principal is accepted exactly for the account and the host that it names; for another account
-- nothing is accepted, and for another host the program ends with an error.
pub authorized_principals-principal :
    (username requested host_name : String) (host_id id : ℕ)
    → lacks 64 username ≡ true
    → authorized_principals
        (host_identifier id host_name)
        requested
        (principal username host_id ∷ [])
      ≡ (if not (username == requested)
          then value []
          else if not (host_id == id)
          then ui_error
              ("Invalid user host id=" <> (decimal host_id <> (" expected=" <> decimal id)))
          else value (principal username host_id ∷ []))
unfolding authorized_principals accept_principals accept_principal
authorized_principals-principal username requested host_name host_id id h =
    rw
      (
        authorized_principals,
        split-host_identifier id host_name,
        accept_principal,
        split-principal username host_id h,
        decimal_eq host_id id,
      )
      refl
