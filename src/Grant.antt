-- ===== src/Grant.antt =====
-- Grants, roles and boundaries: the data of src/provablyfine/api/model/grant.py, role.py and
-- boundary.py. Object ids and times are numbers; the database and pydantic's validation are not
-- modelled, so a grant here is one that has been read back.
pub mod Permission
use pf.Base.{ℕ, Option, none, some, List, String}
use Permission.{
  BoundaryPermission, TagPermission, RolePermission, IdentityPermission, SshPermission,
  TenantPermission, AuthPermission, BastionPermission, AuditLogPermission, LivePermission,
}

-- The filter of a grant about objects that are named by one id.
pub record IdFilter : Type 0 where
  pub id : Option ℕ

pub record TripletFilter : Type 0 where
  pub id : Option ℕ
  pub tag_id_list : Option (List ℕ)
  pub boundary_id_list : Option (List ℕ)

pub record LiveFilter : Type 0 where
  pub tag_id_list : Option (List ℕ)

pub record BoundaryGrant : Type 0 where
  pub filter : IdFilter
  pub permission : BoundaryPermission

pub record TagGrant : Type 0 where
  pub filter : IdFilter
  pub permission : TagPermission

pub record RoleGrant : Type 0 where
  pub filter : IdFilter
  pub permission : RolePermission

pub record IdentityGrant : Type 0 where
  pub filter : TripletFilter
  pub permission : IdentityPermission

pub record SshGrant : Type 0 where
  pub filter : TripletFilter
  pub permission : SshPermission

pub record TenantGrant : Type 0 where
  pub filter : IdFilter
  pub permission : TenantPermission

pub record AuthGrant : Type 0 where
  pub filter : IdFilter
  pub permission : AuthPermission

pub record BastionGrant : Type 0 where
  pub filter : IdFilter
  pub permission : BastionPermission

pub record AuditLogGrant : Type 0 where
  pub permission : AuditLogPermission

pub record LiveGrant : Type 0 where
  pub filter : LiveFilter
  pub permission : LivePermission

-- The union that pydantic tells apart by `type`.
pub data Grant : Type 0 where
  boundary : BoundaryGrant → Grant
  tag : TagGrant → Grant
  role : RoleGrant → Grant
  identity : IdentityGrant → Grant
  ssh : SshGrant → Grant
  tenant : TenantGrant → Grant
  auth : AuthGrant → Grant
  bastion : BastionGrant → Grant
  audit_log : AuditLogGrant → Grant
  live : LiveGrant → Grant

pub record Role : Type 0 where
  pub id : ℕ
  pub name : String
  pub description : String
  pub grant_list : List Grant
  pub member_id_list : List ℕ

-- `ceiling_list` is `none` where there is no ceiling; an empty list is a ceiling that admits nothing.
pub record Boundary : Type 0 where
  pub id : ℕ
  pub name : String
  pub description : String
  pub ceiling_list : Option (List Grant)
  pub denied_list : List Grant

-- `isinstance(g, cls)`, with the value at that class.
abbrev pub as_boundary : Grant → Option BoundaryGrant
as_boundary (Grant.boundary g) = some g
as_boundary _ = none

abbrev pub as_tag : Grant → Option TagGrant
as_tag (Grant.tag g) = some g
as_tag _ = none

abbrev pub as_role : Grant → Option RoleGrant
as_role (Grant.role g) = some g
as_role _ = none

abbrev pub as_identity : Grant → Option IdentityGrant
as_identity (Grant.identity g) = some g
as_identity _ = none

abbrev pub as_ssh : Grant → Option SshGrant
as_ssh (Grant.ssh g) = some g
as_ssh _ = none

abbrev pub as_tenant : Grant → Option TenantGrant
as_tenant (Grant.tenant g) = some g
as_tenant _ = none

abbrev pub as_auth : Grant → Option AuthGrant
as_auth (Grant.auth g) = some g
as_auth _ = none

abbrev pub as_bastion : Grant → Option BastionGrant
as_bastion (Grant.bastion g) = some g
as_bastion _ = none

abbrev pub as_audit_log : Grant → Option AuditLogGrant
as_audit_log (Grant.audit_log g) = some g
as_audit_log _ = none

abbrev pub as_live : Grant → Option LiveGrant
as_live (Grant.live g) = some g
as_live _ = none
