-- ===== src/Access/Repo.antt =====
-- access-control.repo.ts: the queries, and the writes with `skipDuplicates`.
use towerdesk_backend.Common.{
  String, Bool, Option, List, [], ◌∷◌, ◌++◌, map, ◌==◌, nat_eq, string_eq, not, ◌&&◌, ◌||◌, any,
  find, select, includes, is_empty, if◌then◌else◌,
}
use towerdesk_backend.Store.{
  Uid, Effect, Role, Permission, RolePermission, UserRole, UserPermission, Db, Action, ◌>>=◌, ◌>>◌,
  gets, pure, throw_if, modify, transaction, foreign_key_violation, unique_violation,
}

-- `UserPermissionOverride`
pub record UserPermissionOverride : Type 0 where
  pub key : String
  pub effect : Effect

-- `flatMap`
unfoldable pub flat_map : {A B : Type 0} → (A → List B) → List A → List B
flat_map f [] = []
flat_map f (x ∷ xs) = f x ++ flat_map f xs

-- The permission of a link row: the rows of `Permission` with its id.
unfoldable pub linked_permissions : Db → Uid → List Permission
linked_permissions db permission_id = select (λ p. p.id == permission_id) db.permissions

-- `role.rolePermissions.map((rp) => rp.permission)`
unfoldable pub permissions_of_role : Db → Uid → List Permission
unfolding flat_map linked_permissions
permissions_of_role db role_id =
    flat_map (λ (rp : RolePermission). linked_permissions db rp.permission_id)
      (select (λ rp. rp.role_id == role_id) db.role_permissions)

-- `getUserAccess`, `rolePermissionKeys`
unfoldable pub role_permission_keys : Db → Uid → List String
unfolding flat_map permissions_of_role
role_permission_keys db user_id =
    flat_map
      (λ (ur : UserRole). map (λ (p : Permission). p.key) (permissions_of_role db ur.role_id))
      (select (λ ur. ur.user_id == user_id) db.user_roles)

-- `getUserAccess`, `userOverrides`
unfoldable pub user_overrides : Db → Uid → List UserPermissionOverride
unfolding flat_map linked_permissions
user_overrides db user_id =
    flat_map
      (λ (up : UserPermission).
        map (λ (p : Permission). record { key = p.key; effect = up.effect })
          (linked_permissions db up.permission_id))
      (select (λ up. up.user_id == user_id) db.user_permissions)

unfoldable pub find_role : Uid → Db → Option Role
find_role role_id db = find (λ r. r.id == role_id) db.roles

unfoldable pub find_role_by_key : String → Db → Option Role
find_role_by_key key db = find (λ r. r.key == key) db.roles

-- `findPermissionsByKeys`: `where: { key: { in: keys } }`
unfoldable pub find_permissions_by_keys : List String → Db → List Permission
find_permissions_by_keys keys db = select (λ p. includes keys p.key) db.permissions

-- `findRolesByIds`
unfoldable pub find_roles_by_ids : List Uid → Db → List Role
find_roles_by_ids ids db = select (λ r. includes ids r.id) db.roles

-- `createRole`: the key is unique.
unfoldable pub create_role : Role → Action Role
create_role role = do
  throw_if (any (λ r. r.key == role.key) (← gets (λ db. db.roles))) unique_violation
  modify (λ db. record db { roles = db.roles ++ role ∷ [] })
  pure role

abbrev pub same_role_permission : RolePermission → RolePermission → Bool
same_role_permission a b = a.role_id == b.role_id && a.permission_id == b.permission_id

abbrev pub same_user_role : UserRole → UserRole → Bool
same_user_role a b = a.user_id == b.user_id && a.role_id == b.role_id

abbrev pub same_user_permission : UserPermission → UserPermission → Bool
same_user_permission a b = a.user_id == b.user_id && a.permission_id == b.permission_id

-- `createMany({ data, skipDuplicates: true })` for rows that `same` compares by primary key.
unfoldable pub insert_missing : {A : Type 0} → (A → A → Bool) → List A → List A → List A
insert_missing same [] table = table
insert_missing same (row ∷ rows) table =
    insert_missing same rows (if any (same row) table then table else table ++ row ∷ [])

-- Rows that point at a user or at a role that is not there are refused as a whole.
abbrev pub user_role_dangles : Db → UserRole → Bool
user_role_dangles db ur =
    not (any (λ u. u.id == ur.user_id) db.users) || not (any (λ r. r.id == ur.role_id) db.roles)

unfoldable pub create_user_roles : List UserRole → Action (Unit {0})
unfolding insert_missing
create_user_roles rows = do
  throw_if (← gets (λ db. any (user_role_dangles db) rows)) foreign_key_violation
  modify (λ db. record db { user_roles = insert_missing same_user_role rows db.user_roles })

abbrev role_permission_dangles : Db → RolePermission → Bool
role_permission_dangles db rp =
    not (any (λ r. r.id == rp.role_id) db.roles)
    || not (any (λ p. p.id == rp.permission_id) db.permissions)

unfoldable pub create_role_permissions : List RolePermission → Action (Unit {0})
unfolding insert_missing
create_role_permissions rows = do
  throw_if (← gets (λ db. any (role_permission_dangles db) rows)) foreign_key_violation
  modify (λ db. record db {
    role_permissions = insert_missing same_role_permission rows db.role_permissions;
  })

abbrev user_permission_dangles : Db → UserPermission → Bool
user_permission_dangles db up =
    not (any (λ u. u.id == up.user_id) db.users)
    || not (any (λ p. p.id == up.permission_id) db.permissions)

unfoldable pub create_user_permissions : List UserPermission → Action (Unit {0})
unfolding insert_missing
create_user_permissions rows = do
  throw_if (← gets (λ db. any (user_permission_dangles db) rows)) foreign_key_violation
  modify (λ db. record db {
    user_permissions = insert_missing same_user_permission rows db.user_permissions;
  })

abbrev pub user_role_rows : Uid → List Uid → List UserRole
user_role_rows user_id = map (λ role_id. record { user_id = user_id; role_id = role_id })

abbrev pub role_permission_rows : Uid → List Uid → List RolePermission
role_permission_rows role_id =
    map (λ permission_id. record { role_id = role_id; permission_id = permission_id })

-- `addUserRoles`
unfoldable pub add_user_roles : Uid → List Uid → Action (Unit {0})
unfolding create_user_roles
add_user_roles user_id role_ids =
    if is_empty role_ids then pure tt else create_user_roles (user_role_rows user_id role_ids)

-- `replaceUserRoles`
unfoldable pub replace_user_roles : Uid → List Uid → Action (Unit {0})
unfolding create_user_roles
replace_user_roles user_id role_ids = transaction (do
  modify (λ db. record db { user_roles = select (λ ur. not (ur.user_id == user_id)) db.user_roles })
  if is_empty role_ids then pure tt else create_user_roles (user_role_rows user_id role_ids))

-- `addRolePermissions`
unfoldable pub add_role_permissions : Uid → List Uid → Action (Unit {0})
unfolding create_role_permissions
add_role_permissions role_id permission_ids =
    if is_empty permission_ids
    then pure tt
    else create_role_permissions (role_permission_rows role_id permission_ids)

-- `replaceRolePermissions`
unfoldable pub replace_role_permissions : Uid → List Uid → Action (Unit {0})
unfolding create_role_permissions
replace_role_permissions role_id permission_ids = transaction (do
  modify (λ db. record db {
    role_permissions = select (λ rp. not (rp.role_id == role_id)) db.role_permissions;
  })
  if is_empty permission_ids
      then pure tt
      else create_role_permissions (role_permission_rows role_id permission_ids))

-- `replaceUserPermissions`; a row has no user yet
unfoldable pub replace_user_permissions : Uid → List UserPermission → Action (Unit {0})
unfolding create_user_permissions
replace_user_permissions user_id rows = transaction (do
  modify (λ db. record db {
    user_permissions = select (λ up. not (up.user_id == user_id)) db.user_permissions;
  })
  if is_empty rows
      then pure tt
      else create_user_permissions
          (map (λ (up : UserPermission). record up { user_id = user_id }) rows))
