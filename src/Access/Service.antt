-- ===== src/Access/Service.antt =====
-- access-control.service.ts, roles.service.ts and user-access.service.ts.
use towerdesk_backend.Common.{
  String, Bool, Option, some, none, List, [], ◌∷◌, map, ◌==◌, nat_eq, string_eq, not, any, select,
  add as set_add, delete, new_set, is_empty, if◌then◌else◌, or_default, false, true,
}
use towerdesk_backend.Store.{
  Uid, Text, allow, deny, Role, Permission, UserPermission, Db, Action, ◌>>=◌, ◌>>◌, gets, pure,
  or_throw, throw_if, not_found, bad_request,
}
use towerdesk_backend.Access.Repo.{
  UserPermissionOverride, flat_map, permissions_of_role, role_permission_keys, user_overrides,
  find_role, find_permissions_by_keys, find_roles_by_ids, create_role, add_user_roles,
  replace_user_roles, add_role_permissions, replace_role_permissions, replace_user_permissions,
}

-- The loop of `getUserEffectivePermissions`.
abbrev pub apply_override : UserPermissionOverride → List String → List String
apply_override o effective = elim o.effect [
  | allow ↦ set_add o.key effective
  | deny ↦ delete o.key effective
]

unfoldable pub apply_overrides : List UserPermissionOverride → List String → List String
apply_overrides [] effective = effective
apply_overrides (o ∷ os) effective = apply_overrides os (apply_override o effective)

-- `getUserEffectivePermissions`
unfoldable pub effective_permissions : Db → Uid → List String
unfolding role_permission_keys user_overrides apply_overrides
effective_permissions db user_id =
    apply_overrides (user_overrides db user_id) (new_set (role_permission_keys db user_id))

-- `'replace' | 'add'`
pub data UpdateMode : Type 0 where
  replace add : UpdateMode

abbrev pub is_add : UpdateMode → Bool
is_add replace = false
is_add add = true

pub record RoleView : Type 0 where
  pub role : Role
  pub permissions : List Permission

unfoldable pub role_view : Db → Role → RoleView
unfolding permissions_of_role
role_view db role = record { role = role; permissions = permissions_of_role db role.id }

-- `RolesService.create`
unfoldable pub create : Uid → String → Text → Option Text → Action RoleView
unfolding create_role
create id key name description = do
  role ←
      create_role
        (record { id = id; key = key; name = name; description = description; is_system = false })
  pure (record { role = role; permissions = [] })

unfoldable pub missing_keys : List String → List Permission → List String
missing_keys keys permissions =
    select (λ key. not (any (λ (p : Permission). p.key == key) permissions)) keys

-- `RolesService.setRolePermissions`
unfoldable pub set_role_permissions : Uid → List String → UpdateMode → Action RoleView
unfolding find_role find_permissions_by_keys missing_keys add_role_permissions
    replace_role_permissions role_view
set_role_permissions role_id permission_keys mode = do
  existing_role ← or_throw (← gets (find_role role_id)) (not_found "Role not found")
  permissions ← gets (find_permissions_by_keys permission_keys)
  let permission_ids = map (λ (p : Permission). p.id) permissions
  throw_if (not (is_empty (missing_keys permission_keys permissions)))
      (bad_request "Unknown permission keys")
  elim mode [
    | UpdateMode.add ↦ add_role_permissions role_id permission_ids
    | UpdateMode.replace ↦ replace_role_permissions role_id permission_ids
  ]
  gets (λ db. role_view db (or_default (find_role role_id db) existing_role))

unfoldable pub missing_roles : List Uid → List Role → List Uid
missing_roles ids roles = select (λ id. not (any (λ (r : Role). r.id == id) roles)) ids

-- `UserAccessService.assignRoles`
unfoldable pub assign_roles : Uid → List Uid → UpdateMode → Action (Unit {0})
unfolding find_roles_by_ids missing_roles add_user_roles replace_user_roles
assign_roles user_id role_ids mode = do
  roles ← gets (find_roles_by_ids role_ids)
  throw_if (not (is_empty (missing_roles role_ids roles))) (bad_request "Unknown role ids")
  elim mode [
    | UpdateMode.add ↦ add_user_roles user_id role_ids
    | UpdateMode.replace ↦ replace_user_roles user_id role_ids
  ]

-- `permissionIdByKey.get(key)`: the last entry of a `Map` with a key wins.
unfoldable pub last_id_by_key : List Permission → String → Option Uid
last_id_by_key [] key = none
last_id_by_key (p ∷ ps) key = elim (last_id_by_key ps key) [
  | some id ↦ some id
  | none ↦ if p.key == key then some p.id else none
]

unfoldable pub map_override : List Permission → Uid → UserPermissionOverride → List UserPermission
unfolding last_id_by_key
map_override permissions user_id o = elim (last_id_by_key permissions o.key) [
  | some id ↦
      if id == 0
      then []
      else record { user_id = user_id; permission_id = id; effect = o.effect } ∷ []
  | none ↦ []
]

-- `UserAccessService.setPermissionOverrides`
unfoldable pub set_permission_overrides : Uid → List UserPermissionOverride → Action (Unit {0})
unfolding find_permissions_by_keys missing_keys map_override flat_map replace_user_permissions
set_permission_overrides user_id overrides = do
  let permission_keys = map (λ (o : UserPermissionOverride). o.key) overrides
  permissions ← gets (find_permissions_by_keys permission_keys)
  throw_if (not (is_empty (missing_keys permission_keys permissions)))
      (bad_request "Unknown permission keys")
  replace_user_permissions user_id (flat_map (map_override permissions user_id) overrides)
