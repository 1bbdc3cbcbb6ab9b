-- ===== src/Accounts/Members.antt =====
-- users.service.ts: its creation of a user, and the response for one. The id, the temporary
-- password and the salt are drawn outside.
use towerdesk_backend.Common.{
  ℕ, Bool, true, String, Option, none, some, List, [], map, ◌==◌, nat_eq, string_eq, not, includes,
  new_set, length, is_some, is_empty, or_default, if◌then◌else◌, select,
}
use towerdesk_backend.Store.{
  Uid, Text, User, Role, Action, ◌>>=◌, ◌>>◌, pure, gets, or_throw, throw_if, transaction,
  not_found, bad_request, conflict,
}
use towerdesk_backend.Access.{create_user_roles}
use towerdesk_backend.Scope.{AuthenticatedUser, assert_org_scope}
use towerdesk_backend.Org.{find_user, find_user_by_email, create_user}
use towerdesk_backend.Auth.{Crypto, get_role_keys}

pub record CreateOrgUserDto : Type 0 where
  pub email : Uid
  pub name : Option Text
  pub password : Option Text
  pub role_keys : Option (List String)

pub record CreatedUser : Type 0 where
  pub user_id : Uid
  pub email : Uid
  pub temp_password : Option Text
  pub must_change_password : Bool

-- The row of a user with a password that must be changed: the other columns have their defaults.
abbrev pub temp_user : Crypto → ℕ → Uid → Uid → Option Text → Text → Uid → User
temp_user crypto nonce id email name password org_id = record {
  id = id;
  email = email;
  password_hash = crypto.hash nonce password;
  refresh_token_hash = none;
  name = name;
  avatar_url = none;
  phone = none;
  org_id = some org_id;
  must_change_password = true;
  is_active = true;
}

-- `dto.password ? undefined : tempPassword`
abbrev pub shown_password : Option Text → Text → Option Text
shown_password none temp = some temp
shown_password (some password) temp = if is_empty password then some password else none

-- `dto.roleKeys?.length ? Array.from(new Set(dto.roleKeys)) : []`
abbrev pub distinct_keys : Option (List String) → List String
distinct_keys none = []
distinct_keys (some keys) = new_set keys

-- The roles of a new user.
unfoldable pub give_roles : Uid → List String → Action (Unit {0})
unfolding create_user_roles
give_roles user_id role_keys = if is_empty role_keys then pure tt else do
  roles ← gets (λ db. select (λ (r : Role). includes role_keys r.key) db.roles)
  throw_if (not (length roles == length role_keys)) (bad_request "Unknown role key provided")
  create_user_roles (map (λ (r : Role). record { user_id = user_id; role_id = r.id }) roles)

-- `createInOrg`
unfoldable pub create_in_org :
    Crypto → ℕ → Uid → Text → Option AuthenticatedUser → CreateOrgUserDto → Action CreatedUser
unfolding assert_org_scope find_user_by_email new_set create_user give_roles
create_in_org crypto nonce id temp user dto = do
  org_id ← assert_org_scope user
  throw_if (is_some (← gets (find_user_by_email dto.email))) (conflict "Email already in use")
  throw_if (includes (or_default dto.role_keys []) "super_admin")
      (bad_request "super_admin role cannot be assigned")
  let password = or_default dto.password temp
  created ← transaction (do
    x ← create_user (temp_user crypto nonce id dto.email dto.name password org_id)
    give_roles x.id (distinct_keys dto.role_keys)
    pure x)
  pure (record {
    user_id = created.id;
    email = created.email;
    temp_password = shown_password dto.password temp;
    must_change_password = true;
  })

-- `toUserResponse`, of the columns that are kept
pub record UserResponse : Type 0 where
  pub user : User
  pub role_keys : List String

-- `findById`
unfoldable pub get_user : Uid → Action UserResponse
unfolding find_user get_role_keys
get_user id = do
  user ← or_throw (← gets (find_user id)) (not_found "User not found")
  role_keys ← gets (λ db. get_role_keys db user.id)
  pure (record { user = user; role_keys = role_keys })
