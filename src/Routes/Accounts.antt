-- ===== src/Routes/Accounts.antt =====
-- access-control/user-access.controller.ts and roles.controller.ts, users/users.controller.ts and
-- users/org-users-provision.controller.ts.
use towerdesk_backend.Common.{ℕ, String, Option, List, [], ◌∷◌}
use towerdesk_backend.Store.{Uid, Text, Action}
use towerdesk_backend.Scope.{AuthenticatedUser}
use towerdesk_backend.Access.{
  UserPermissionOverride, UpdateMode, assign_roles, set_permission_overrides, create,
  set_role_permissions,
}
use towerdesk_backend.Org.{TextOps, Draws, ProvisionUserDto, provision}
use towerdesk_backend.Auth.{Crypto}
use towerdesk_backend.Accounts.{
  CreateOrgUserDto, UpdateUserProfileDto, create_in_org, get_user, update_profile,
}
use towerdesk_backend.Maintenance.{done}
use towerdesk_backend.Routes.Pipeline.{
  jwt_auth, org_scope, permissions, Plain, guarded_by, plain_route, plain_request, with_user, serve,
}

pub data UserAccessCall : Type 0 where
  assign : Uid → List Uid → UpdateMode → UserAccessCall
  set_permissions : Uid → List UserPermissionOverride → UserAccessCall

pub data RolesCall : Type 0 where
  create_role : Uid → String → Text → Option Text → RolesCall
  set_role : Uid → List String → UpdateMode → RolesCall

pub data UsersCall : Type 0 where
  get_me : UsersCall
  update_me : UpdateUserProfileDto → UsersCall
  get_by_id : Uid → UsersCall
  create_org_user : ℕ → Uid → Text → CreateOrgUserDto → UsersCall

pub data AccountCall : Type 0 where
  user_access : UserAccessCall → AccountCall
  roles : RolesCall → AccountCall
  users : UsersCall → AccountCall
  provision_user : TextOps → Draws → ProvisionUserDto → AccountCall

unfoldable pub user_access_route : UserAccessCall → Plain
user_access_route (assign _ _ _) = guarded_by (jwt_auth ∷ permissions ∷ []) ("users.write" ∷ [])
user_access_route (set_permissions _ _) =
    guarded_by (jwt_auth ∷ permissions ∷ []) ("users.write" ∷ [])

unfoldable pub roles_route : RolesCall → Plain
roles_route (create_role _ _ _ _) = guarded_by (jwt_auth ∷ permissions ∷ []) ("roles.write" ∷ [])
roles_route (set_role _ _ _) = guarded_by (jwt_auth ∷ permissions ∷ []) ("roles.write" ∷ [])

unfoldable pub users_route : UsersCall → Plain
users_route get_me = guarded_by (jwt_auth ∷ permissions ∷ []) []
users_route (update_me _) = guarded_by (jwt_auth ∷ permissions ∷ []) []
users_route (get_by_id _) = guarded_by (jwt_auth ∷ permissions ∷ []) []
users_route (create_org_user _ _ _ _) =
    guarded_by (jwt_auth ∷ permissions ∷ org_scope ∷ []) ("users.write" ∷ [])

abbrev pub account_route : AccountCall → Plain
account_route (user_access c) = user_access_route c
account_route (roles c) = roles_route c
account_route (users c) = users_route c
account_route (provision_user _ _ _) = guarded_by (jwt_auth ∷ org_scope ∷ []) []

unfoldable pub user_access_handler : UserAccessCall → Action (Unit {0})
user_access_handler (assign user_id role_ids mode) = assign_roles user_id role_ids mode
user_access_handler (set_permissions user_id overrides) = set_permission_overrides user_id overrides

unfoldable pub roles_handler : RolesCall → Action (Unit {0})
roles_handler (create_role id key name description) = done (create id key name description)
roles_handler (set_role role_id permission_keys mode) =
    done (set_role_permissions role_id permission_keys mode)

module _ (crypto : Crypto) where
  unfoldable pub users_handler : Option AuthenticatedUser → UsersCall → Action (Unit {0})
  users_handler user get_me = with_user user (λ u. done (get_user u.sub))
  users_handler user (update_me dto) = with_user user (λ u. done (update_profile u.sub dto))
  users_handler user (get_by_id id) = done (get_user id)
  users_handler user (create_org_user nonce id temp dto) =
      done (create_in_org crypto nonce id temp user dto)

  abbrev pub account_handler : Option AuthenticatedUser → AccountCall → Action (Unit {0})
  account_handler user (user_access c) = user_access_handler c
  account_handler user (roles c) = roles_handler c
  account_handler user (users c) = users_handler user c
  account_handler user (provision_user ops draws dto) = done (provision ops draws user dto)

  -- A call of one of these routes, as the application answers it.
  unfoldable pub answer_account : Option AuthenticatedUser → AccountCall → Action (Unit {0})
  unfolding serve
  answer_account user call =
      serve (plain_route (account_route call)) (plain_request user)
        (λ user. account_handler user call)
