-- ===== src/Routes/Pipeline.antt =====
-- `@UseGuards`, and common/guards/jwt-auth.guard.ts: the guards in front of a handler run in
-- order, those of the class before those of the method, and what one throws is the answer.
use towerdesk_backend.Common.{Bool, Option, none, some, List, [], ◌∷◌, String, not}
use towerdesk_backend.Store.{
  Uid, Action, ◌>>=◌, ◌>>◌, pure, or_throw, throw_if, unauthorized, forbidden, throw,
}
use towerdesk_backend.Scope.{
  AuthenticatedUser, AccessLevel, read, write, RouteMetadata, Request, org_scope_guard,
  permissions_guard, building_access_guard,
}

pub data Guard : Type 0 where
  jwt_auth org_scope permissions building_access : Guard

pub record Route : Type 0 where
  pub guards : List Guard
  pub metadata : RouteMetadata

-- A guard that answers `false` refuses the request.
abbrev pub accept : Bool × Request → Action Request
accept (allowed, request) = do throw_if (not allowed) (forbidden "Forbidden resource"); pure request

-- `JwtAuthGuard` sets the user that the strategy found for the token, if there is one.
unfoldable pub run_guard : RouteMetadata → Guard → Request → Action Request
unfolding org_scope_guard permissions_guard building_access_guard
run_guard metadata jwt_auth request = do
  or_throw request.user (unauthorized "Unauthorized")
  pure request
run_guard metadata org_scope request = do
  allowed ← org_scope_guard request
  accept (allowed, request)
run_guard metadata permissions request = permissions_guard metadata request >>= accept
run_guard metadata building_access request = do
  allowed ← building_access_guard metadata request
  accept (allowed, request)

unfoldable pub run_guards : RouteMetadata → List Guard → Request → Action Request
unfolding run_guard
run_guards metadata [] request = pure request
run_guards metadata (guard ∷ guards) request =
    run_guard metadata guard request >>= λ request. run_guards metadata guards request

unfoldable pub serve :
    {A : Type 0} → Route → Request → (Option AuthenticatedUser → Action A) → Action A
unfolding run_guards
serve route request handler =
    run_guards route.metadata route.guards request >>= λ request. handler request.user

-- The decorators of a handler below `org/buildings/:buildingId`: `@BuildingReadAccess(flag)` or
-- `@BuildingWriteAccess(flag)`, with `@RequirePermissions(permission)`.
pub record Decorators : Type 0 where
  pub level : AccessLevel
  pub flag : Bool
  pub permission : String

abbrev pub decorated : AccessLevel → Bool → String → Decorators
decorated level flag permission = record { level = level; flag = flag; permission = permission }

abbrev pub building_metadata : Decorators → RouteMetadata
building_metadata d = elim d.level [
  | read ↦ record {
    access_level = some read;
    permissions = d.permission ∷ [];
    resident_allowed = d.flag;
    manager_write_allowed = Bool.false;
  }
  | write ↦ record {
    access_level = some write;
    permissions = d.permission ∷ [];
    resident_allowed = Bool.false;
    manager_write_allowed = d.flag;
  }
]

-- The controllers of a building have the same guards.
abbrev pub building_route : Decorators → Route
building_route d = record {
  guards = jwt_auth ∷ org_scope ∷ building_access ∷ [];
  metadata = building_metadata d;
}

-- A request whose path names a building.
abbrev pub at_building : Option AuthenticatedUser → Uid → Request
at_building user building_id = record {
  user = user;
  building_id = some building_id;
  effective_permissions = none;
}

-- The guards of a handler that is not below a building, and `@RequirePermissions(…)`, if any.
pub record Plain : Type 0 where
  pub guards : List Guard
  pub required : List String

abbrev pub guarded_by : List Guard → List String → Plain
guarded_by guards required = record { guards = guards; required = required }

abbrev pub plain_route : Plain → Route
plain_route plain = record {
  guards = plain.guards;
  metadata = record {
    access_level = none;
    permissions = plain.required;
    resident_allowed = Bool.false;
    manager_write_allowed = Bool.false;
  };
}

abbrev pub plain_request : Option AuthenticatedUser → Request
plain_request user = record { user = user; building_id = none; effective_permissions = none }

-- `@CurrentUser('sub')` and `@CurrentUser('orgId')`, of the user that `jwt_auth` has let through
abbrev pub with_user :
    {A : Type 0} → Option AuthenticatedUser → (AuthenticatedUser → Action A) → Action A
with_user none f = throw (unauthorized "Unauthorized")
with_user (some user) f = f user
