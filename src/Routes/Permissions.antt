-- ===== src/Routes/Permissions.antt =====
-- Whom the routes that require a permission let through, and what a holder of `users.write` may do.
use towerdesk_backend.Common.{
  Bool, true, String, Option, List, [], ◌∷◌, ◌≡◌, refl, ◌==◌, nat_eq, string_eq, any, select, has,
  includes, every, arith, if◌then◌else◌, some,
}
use towerdesk_backend.Store.{Uid, User, Role, Db, Action, ok, err, forbidden, not_found}
use towerdesk_backend.Scope.{AuthenticatedUser, sub_of, permissions_guard}
use towerdesk_backend.Access.{
  effective_permissions, UpdateMode, assign_roles, find_roles_by_ids, missing_roles, add_user_roles,
  replace_user_roles, create_user_roles,
}
use towerdesk_backend.Access.Updates.{has_user_role, assign_roles_lem}
use towerdesk_backend.Accounts.{get_user}
use towerdesk_backend.Org.{find_user}
use towerdesk_backend.Scope.Checks.{find-any}
use towerdesk_backend.Auth.{Crypto}
use towerdesk_backend.Routes.Pipeline.{
  jwt_auth, permissions, guarded_by, plain_route, plain_request, run_guard, run_guards, serve,
}
use towerdesk_backend.Routes.Accounts.{
  user_access, assign, user_access_route, user_access_handler, answer_account, users_route,
  users_handler, users, get_by_id,
}

-- The user holds the permission.
abbrev pub holds : Db → Uid → String → Bool
holds db user_id key = has (effective_permissions db user_id) key

plain_permissions :
    {A : Type 0} (key : String) (user : Option AuthenticatedUser)
    (next : Option AuthenticatedUser → Action A) (db : Db) (user_id : Uid)
    → sub_of user ≡ some user_id
    → serve
        (plain_route (guarded_by (jwt_auth ∷ permissions ∷ []) (key ∷ [])))
        (plain_request user)
        next
        db
      ≡ (if holds db user_id key
          then next user db
          else (err (forbidden "Missing required permissions"), db))
unfolding serve run_guards run_guard permissions_guard every
plain_permissions key user next db user_id s = ground arith

any_selected :
    (id : Uid) (roles : List Role)
    → any (λ (r : Role). r.id == id) (select (λ (r : Role). includes (id ∷ []) r.id) roles)
      ≡ any (λ (r : Role). r.id == id) roles
unfolding any select includes
any_selected id [] = refl
any_selected id (r ∷ roles) = ground (arith, any_selected id roles)

assign_succeeds :
    (db : Db) (target role_id : Uid) (mode : UpdateMode)
    → any (λ (u : User). u.id == target) db.users ≡ true
    → any (λ (r : Role). r.id == role_id) db.roles ≡ true
    → (assign_roles target (role_id ∷ []) mode db).0 ≡ ok tt
unfolding assign_roles find_roles_by_ids missing_roles add_user_roles replace_user_roles
    create_user_roles any select
assign_succeeds db target role_id UpdateMode.add t r = ground (arith, any_selected role_id db.roles)
assign_succeeds db target role_id UpdateMode.replace t r =
    ground (arith, any_selected role_id db.roles)

-- A caller who holds `users.write` gives any role that there is, the role `super_admin` included,
-- to any user that there is, themselves included, of whatever organisation.
pub answer_account-assign :
    (crypto : Crypto) (user : Option AuthenticatedUser) (db : Db) (user_id target : Uid)
    (role_id : Uid) (mode : UpdateMode)
    → sub_of user ≡ some user_id
    → holds db user_id "users.write" ≡ true
    → any (λ (u : User). u.id == target) db.users ≡ true
    → any (λ (r : Role). r.id == role_id) db.roles ≡ true
    → ((answer_account crypto user (user_access (assign target (role_id ∷ []) mode)) db).0 ≡ ok tt)
      × (has_user_role
            (answer_account crypto user (user_access (assign target (role_id ∷ []) mode)) db).1
            target
            role_id
          ≡ true)
unfolding answer_account user_access_route user_access_handler includes
answer_account-assign crypto user db user_id target role_id mode s h t r =
    let next : Option AuthenticatedUser → Action (Unit {0}) =
      λ _. user_access_handler (assign target (role_id ∷ []) mode) in
    let done_ : (assign_roles target (role_id ∷ []) mode db).0 ≡ ok tt =
      assign_succeeds db target role_id mode t r in
    ground (
      arith,
      plain_permissions "users.write" user next db user_id s,
      done_,
      assign_roles_lem target (role_id ∷ []) mode db target role_id done_,
    )

-- `GET users/:id` shows any signed-in caller the row of any user, of whatever organisation.
pub answer_account-get_by_id :
    (crypto : Crypto) (user : Option AuthenticatedUser) (db : Db) (id : Uid) (user_id : Uid)
    → sub_of user ≡ some user_id
    → answer_account crypto user (users (get_by_id id)) db ≡ (
      (if any (λ (u : User). u.id == id) db.users then ok tt else err (not_found "User not found")),
      db,
    )
unfolding answer_account users_route users_handler serve run_guards run_guard permissions_guard
    get_user find_user
answer_account-get_by_id crypto user db id user_id s =
    ground (arith, find-any (λ (u : User). u.id == id) db.users)
