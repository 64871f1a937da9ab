-- ===== src/Permission.antt =====
-- crates/core/src/permission.rs: the grant that is consulted at run time, and the static
-- aggregation of the permissions that a macro needs.
mod Aggregate
pub mod Exact
pub mod Distinct
pub mod Describe
unfoldable pub use Aggregate.*
use ko_rkuma.Prelude.{Bool, String, List, contains}
use ko_rkuma.Domain.{Permission, PathScope, PermissionSet, permission_eq}

pub record PermissionGrant : Type 0 where
  pub granted : List Permission

abbrev pub from_set : PermissionSet → PermissionGrant
from_set set = record { granted = set.permissions }

unfoldable pub allows : PermissionGrant → Permission → Bool
allows grant permission = contains grant.granted permission
