-- ===== src/Grant/Permission.antt =====
-- The permissions that a grant can carry (src/provablyfine/api/model/grant.py).
use pf.Base.{ℕ, Bool, Option, List, String, Eq}

pub record BoundaryUpdatePermission : Type 0 where
  pub name : Bool
  pub description : Bool
  pub ceiling_list : Bool
  pub denied_list : Bool

pub record BoundaryPermission : Type 0 where
  pub create : Bool
  pub read : Bool
  pub delete : Bool
  pub update : Option BoundaryUpdatePermission

pub record TagPermission : Type 0 where
  pub create : Bool
  pub read : Bool
  pub delete : Bool

pub record RoleUpdatePermission : Type 0 where
  pub name : Bool
  pub description : Bool
  pub grant_list : Bool
  pub member_list : Bool

pub record RolePermission : Type 0 where
  pub create : Bool
  pub read : Bool
  pub delete : Bool
  pub update : Option RoleUpdatePermission

pub record IdentityCreatePermission : Type 0 where
  pub allowed : Bool
  pub allowed_tag_id_list : Option (List ℕ)
  pub required_boundary_id_list : Option (List ℕ)

pub record IdentityUpdatePermission : Type 0 where
  pub name : Bool
  pub unix_username : Bool

pub record IdentityPermission : Type 0 where
  pub create : Option IdentityCreatePermission
  pub read : Bool
  pub update : Option IdentityUpdatePermission
  pub delete : Bool
  pub add_tag_id_list : Option (List ℕ)
  pub del_tag_id_list : Option (List ℕ)
  pub invite_list : Option (List String)

pub data SshCapability : Type 0 where
  shell pty user_rc agent_forwarding x11_forwarding port_forwarding : SshCapability

SshCapability-discrete : Discrete SshCapability
SshCapability-discrete = hlevel

instance unfoldable pub capability_eq : Eq SshCapability
unfolding SshCapability-discrete
capability_eq = record { dec = SshCapability-discrete }

-- `none` stands for the whole set of values in each field; the ttl is in seconds.
pub record SshPermission : Type 0 where
  pub username_list : Option (List String)
  pub capability_list : Option (List SshCapability)
  pub command_list : Option (List String)
  pub max_session_ttl_s : Option ℕ

pub record TenantUpdatePermission : Type 0 where
  pub display_name : Bool
  pub is_enabled : Bool
  pub audit_retention_days : Bool
  pub activity_retention_days : Bool
  pub retention_purge_enabled : Bool

pub record TenantPermission : Type 0 where
  pub create : Bool
  pub read : Bool
  pub delete : Bool
  pub update : Option TenantUpdatePermission

pub record AuthUpdatePermission : Type 0 where
  pub name : Bool
  pub description : Bool
  pub is_enabled : Bool
  pub config : Bool

pub record AuthPermission : Type 0 where
  pub create : Bool
  pub read : Bool
  pub delete : Bool
  pub update : Option AuthUpdatePermission

pub record BastionUpdatePermission : Type 0 where
  pub url : Bool
  pub ssh_proxy_jump : Bool
  pub tag_list : Bool

pub record BastionPermission : Type 0 where
  pub create : Bool
  pub read : Bool
  pub delete : Bool
  pub update : Option BastionUpdatePermission

pub record AuditLogPermission : Type 0 where
  pub read : Bool

pub record LivePermission : Type 0 where
  pub read : Bool
  pub terminate : Bool
