-- ===== src/Tests/Rights.antt =====
-- The theorems on permissions and on the access to a building, on the sample.
use towerdesk_backend.Common.{
  true, false, not, ◌&&◌, ◌||◌, none, some, [], ◌∷◌, ◌≡◌, refl, any, find, select, has, includes,
  if◌then◌else◌, nat_eq, string_eq, every, delete, new_set, add, delete,
}
use towerdesk_backend.Store.{ok}
use towerdesk_backend.Access.{
  effective_permissions, user_overrides, linked_permissions, flat_map, UpdateMode, assign_roles,
}
use towerdesk_backend.Access.Effective.{
  UniqueOverrides, overrides, is_allow, role_grants, effective_permissions_lem,
}
use towerdesk_backend.Access.Updates.{has_user_role, assign_roles_lem}
use towerdesk_backend.Scope.{
  get_building_assignment_type, write, RouteMetadata, Request, building_access_guard, may_write,
  find_building, has_global_permissions,
}
use towerdesk_backend.Tests.Sample.{db, manager_user}

unique_overrides : UniqueOverrides (user_overrides db 1)
unfolding user_overrides linked_permissions flat_map select any
unique_overrides = (refl, tt)

effective_permissions_lem_example : has (effective_permissions db 1) "units.read" ≡ (
    overrides is_allow db 1 "units.read"
    || (role_grants db 1 "units.read" && not (overrides (λ e. not (is_allow e)) db 1 "units.read")))
effective_permissions_lem_example = effective_permissions_lem db 1 "units.read" unique_overrides

assign_roles_lem_example :
    has_user_role (assign_roles 2 (31 ∷ []) UpdateMode.add db).1 2 31
    ≡ (if true then true || (true && has_user_role db 2 31) else has_user_role db 2 31)
unfolding includes assign_roles select any
assign_roles_lem_example = assign_roles_lem 2 (31 ∷ []) UpdateMode.add db 2 31 refl

abbrev route : RouteMetadata
route = record {
  access_level = some write;
  permissions = "buildings.write" ∷ [];
  resident_allowed = false;
  manager_write_allowed = true;
}

abbrev request : Request
request = record { user = manager_user; building_id = some 5; effective_permissions = none }

guard_accepts :
    building_access_guard (record route { access_level = some write }) request db ≡ (ok true, db)
unfolding building_access_guard may_write get_building_assignment_type select any find find_building
    has_global_permissions every includes effective_permissions delete new_set add
guard_accepts = refl
