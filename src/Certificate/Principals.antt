-- ===== src/Certificate/Principals.antt =====
-- `_authorized_principals` of src/provablyfine/cli/pf/openssh_cli.py: what a host tells sshd about the
-- certificate of a user. The files and the encodings that it reads are given as values.
pub mod Laws
use Prim.Native.String.{◌++◌ as ◌<>◌}
use pf.Base.{Bool, not, List, [], ◌∷◌, String, ◌==◌, string_eq, if◌then◌else◌}
use pf.Cli.{Result, value, ui_error, split}

-- One round of the loop, before the rounds that follow.
accept_principal : String → String → String → Result (List String) → Result (List String)
unfolding split
accept_principal username host_identifier principal rest = elim (split 64 principal) [
  | [] ↦ ui_error ("Invalid user principal=" <> principal)
  | _ ∷ [] ↦ ui_error ("Invalid user principal=" <> principal)
  | name ∷ host_id ∷ [] ↦
      if not (name == username)
      then rest
      else if not (host_id == host_identifier)
      then ui_error ("Invalid user host id=" <> (host_id <> (" expected=" <> host_identifier)))
      else elim rest [ value accepted ↦ value (principal ∷ accepted) | ui_error e ↦ ui_error e ]
  | _ ∷ _ ∷ _ ∷ _ ↦ ui_error ("Invalid user principal=" <> principal)
]

accept_principals : String → String → List String → Result (List String)
unfolding accept_principal
accept_principals username host_identifier [] = value []
accept_principals username host_identifier (p ∷ ps) =
    accept_principal username host_identifier p (accept_principals username host_identifier ps)

-- The principals that are accepted: `identifier` is the key id of the certificate of the host.
unfoldable pub authorized_principals : String → String → List String → Result (List String)
unfolding accept_principals
authorized_principals identifier username principals = elim (split 58 identifier) [
  | [] ↦ ui_error ("Invalid host identifier=" <> identifier)
  | host_identifier ∷ _ ↦ accept_principals username host_identifier principals
]
