-- ===== src/Scope/Guards.antt =====
-- common/guards: what a route's decorators ask for, and the guards that read them.
use towerdesk_backend.Common.{
  Bool, true, false, String, Option, none, some, List, nat_eq, string_eq, not, every, has, is_empty,
  or_default, if◌then◌else◌,
}
use towerdesk_backend.Store.{
  Uid, Action, ◌>>=◌, ◌>>◌, pure, gets, or_throw, throw_if, bad_request, unauthorized, forbidden,
}
use towerdesk_backend.Access.{effective_permissions}
use towerdesk_backend.Scope.User.{AuthenticatedUser, truthy, org_of, sub_of}
use towerdesk_backend.Scope.Buildings.{
  AccessOptions, can_read_building_resource, can_write_building_resource,
}

-- `BuildingAccessLevel`
pub data AccessLevel : Type 0 where
  read write : AccessLevel

-- The decorators' metadata on a handler; absent lists and flags read as `[]` and `false`.
pub record RouteMetadata : Type 0 where
  pub access_level : Option AccessLevel
  pub permissions : List String
  pub resident_allowed : Bool
  pub manager_write_allowed : Bool

-- What the guards read of the request, and the permissions that they cache on it.
pub record Request : Type 0 where
  pub user : Option AuthenticatedUser
  pub building_id : Option Uid
  pub effective_permissions : Option (List String)

-- `OrgScopeGuard`
unfoldable pub org_scope_guard : Request → Action Bool
org_scope_guard request = do
  or_throw (sub_of request.user) (unauthorized "Unauthorized")
  or_throw (org_of request.user) (forbidden "Org scope required")
  pure true

-- `PermissionsGuard`: it returns the request too, with the permissions that it loaded.
unfoldable pub permissions_guard : RouteMetadata → Request → Action (Bool × Request)
permissions_guard route request = if is_empty route.permissions then pure (true, request) else do
  user_id ← or_throw (sub_of request.user) (unauthorized "Unauthorized")
  loaded ← gets (λ db. effective_permissions db user_id)
  let effective = or_default request.effective_permissions loaded
  throw_if (not (every (has effective) route.permissions))
      (forbidden "Missing required permissions")
  pure (true, record request { effective_permissions = some effective })

abbrev pub options_of : AccessLevel → RouteMetadata → Request → AccessOptions
options_of read route request = record {
  required_permissions = route.permissions;
  allow_resident = route.resident_allowed;
  effective_permissions = request.effective_permissions;
  allow_manager_write = false;
}
options_of write route request = record {
  required_permissions = route.permissions;
  allow_resident = false;
  effective_permissions = request.effective_permissions;
  allow_manager_write = route.manager_write_allowed;
}

abbrev pub ask : AccessLevel → Option AuthenticatedUser → Uid → AccessOptions → Action Bool
ask read = can_read_building_resource
ask write = can_write_building_resource

-- `BuildingAccessGuard`
unfoldable pub building_access_guard : RouteMetadata → Request → Action Bool
unfolding can_read_building_resource can_write_building_resource
building_access_guard route request = elim route.access_level [
  | none ↦ pure true
  | some level ↦ do
    building_id ← or_throw (truthy request.building_id) (bad_request "buildingId is required")
    or_throw (sub_of request.user) (unauthorized "Unauthorized")
    allowed ← ask level request.user building_id (options_of level route request)
    throw_if (not allowed) (forbidden "Forbidden")
    pure true
]
