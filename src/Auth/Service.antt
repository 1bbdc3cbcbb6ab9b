-- ===== src/Auth/Service.antt =====
-- auth.service.ts and auth.repo.ts. Ids are drawn outside, and so is what makes a hash or a token
-- differ from one call to the next (a salt, the time of issue).
use towerdesk_backend.Common.{
  ℕ, Bool, true, false, String, Option, none, some, List, [], ◌∷◌, map, ◌==◌, nat_eq, string_eq,
  not, find, select, includes, update, is_empty, is_some, if◌then◌else◌,
}
use towerdesk_backend.Store.{
  Uid, Text, AssignmentType, manager, staff, building_admin, type_eq, User, Db, Action, ◌>>=◌, ◌>>◌,
  pure, gets, modify, or_throw, throw_if, unauthorized, conflict, record_not_found,
}
use towerdesk_backend.Access.{flat_map}
use towerdesk_backend.Scope.{assignment_priority, first_type}
use towerdesk_backend.Org.{find_user, find_user_by_email, create_user}

-- `JwtPayload`; `org_id` is absent, or null, or a string.
pub record JwtPayload : Type 0 where
  pub sub : Uid
  pub email : Option Uid
  pub org_id : Option (Option Uid)

-- What the code calls: argon2 with the salt of a call, and the signing of the two kinds of token.
pub record Crypto : Type 0 where
  pub hash : ℕ → Text → Text
  pub verify : Text → Text → Bool
  pub sign_access : ℕ → JwtPayload → Text
  pub verify_access : Text → Option JwtPayload
  pub sign_refresh : ℕ → Uid → Text
  pub verify_refresh : Text → Option Uid

pub record Tokens : Type 0 where
  pub access_token : Text
  pub refresh_token : Text

-- `AuthResponseDto`, with the user as stored before the token was
pub record AuthResponse : Type 0 where
  pub tokens : Tokens
  pub user : User
  pub role_keys : List String
  pub role : Option String

pub record LoginDto : Type 0 where
  pub email : Uid
  pub password : Text

pub record RegisterDto : Type 0 where
  pub email : Uid
  pub password : Text
  pub name : Option Text

-- `getRoleKeys`
unfoldable pub get_role_keys : Db → Uid → List String
unfolding flat_map
get_role_keys db user_id =
    flat_map (λ ur. map (λ r. r.key) (select (λ r. r.id == ur.role_id) db.roles))
      (select (λ ur. ur.user_id == user_id) db.user_roles)

-- `getHighestBuildingAssignmentType`
unfoldable pub get_highest_building_assignment_type : Db → Uid → Option AssignmentType
unfolding first_type
get_highest_building_assignment_type db user_id =
    let mine = select (λ a. a.user_id == user_id) db.assignments in
    if is_empty mine then none else first_type assignment_priority mine

-- `tx.user.update({ where: { id }, data })`
unfoldable pub update_user : Uid → (User → User) → Action User
update_user id patch = do
  row ← or_throw (← gets (find_user id)) record_not_found
  modify (λ db. record db { users = update (λ (x : User). x.id) id patch db.users })
  pure (patch row)

-- The roles that `deriveUserRole` looks for, in its order.
abbrev pub role_priority : List String
role_priority =
    "platform_superadmin" ∷ "super_admin" ∷ "org_admin" ∷ "admin" ∷ "viewer" ∷ "resident" ∷ []

abbrev pub assignment_role : Option AssignmentType → Option String
assignment_role none = none
assignment_role (some building_admin) = some "admin"
assignment_role (some manager) = some "manager"
assignment_role (some staff) = some "staff"

-- `deriveUserRole`
unfoldable pub derive_user_role : List String → Option AssignmentType → Option String
derive_user_role role_keys assignment_type = elim (find (includes role_keys) role_priority) [
  | some key ↦ some key
  | none ↦ assignment_role assignment_type
]

module _ (crypto : Crypto) where
  -- `issueTokens`
  unfoldable pub issue_tokens : ℕ → User → Tokens
  issue_tokens nonce user = record {
    access_token =
        crypto.sign_access nonce
          (record { sub = user.id; email = some user.email; org_id = some user.org_id });
    refresh_token = crypto.sign_refresh nonce user.id;
  }

  -- `saveRefreshToken`
  unfoldable pub save_refresh_token : ℕ → Uid → Text → Action User
  unfolding update_user
  save_refresh_token nonce user_id refresh_token =
      update_user user_id
        (λ x. record x { refresh_token_hash = some (crypto.hash nonce refresh_token) })

  -- What `register`, `login` and `refresh` end with.
  unfoldable pub respond : ℕ → User → Action AuthResponse
  unfolding issue_tokens save_refresh_token get_role_keys get_highest_building_assignment_type
      derive_user_role
  respond nonce user = do
    let tokens = issue_tokens nonce user
    save_refresh_token nonce user.id tokens.refresh_token
    role_keys ← gets (λ db. get_role_keys db user.id)
    assignment_type ← gets (λ db. get_highest_building_assignment_type db user.id)
    pure (record {
      tokens = tokens;
      user = user;
      role_keys = role_keys;
      role = derive_user_role role_keys assignment_type;
    })

  -- The row of a registered user: the other columns have their defaults.
  abbrev pub registered_user : ℕ → Uid → RegisterDto → User
  registered_user nonce id dto = record {
    id = id;
    email = dto.email;
    password_hash = crypto.hash nonce dto.password;
    refresh_token_hash = none;
    name = dto.name;
    avatar_url = none;
    phone = none;
    org_id = none;
    must_change_password = false;
    is_active = true;
  }

  -- `register`
  unfoldable pub register : ℕ → Uid → RegisterDto → Action AuthResponse
  unfolding find_user_by_email create_user respond
  register nonce id dto = do
    throw_if (is_some (← gets (find_user_by_email dto.email))) (conflict "Email already in use")
    user ← create_user (registered_user nonce id dto)
    respond nonce user

  -- `login`
  unfoldable pub login : ℕ → LoginDto → Action AuthResponse
  unfolding find_user_by_email respond
  login nonce dto = do
    user ← or_throw (← gets (find_user_by_email dto.email)) (unauthorized "Invalid credentials")
    throw_if (not user.is_active) (unauthorized "Invalid credentials")
    throw_if (not (crypto.verify user.password_hash dto.password))
        (unauthorized "Invalid credentials")
    respond nonce user

  -- `user.refreshTokenHash`, where the empty string is falsy
  abbrev pub stored_hash : User → Option Text
  stored_hash user = elim user.refresh_token_hash [
    | none ↦ none
    | some h ↦ if is_empty h then none else some h
  ]

  -- `refresh`
  unfoldable pub refresh : ℕ → Uid → Text → Action AuthResponse
  unfolding find_user respond
  refresh nonce user_id refresh_token = do
    user ← or_throw (← gets (find_user user_id)) (unauthorized "Refresh token invalid")
    refresh_hash ← or_throw (stored_hash user) (unauthorized "Refresh token invalid")
    throw_if (not (crypto.verify refresh_hash refresh_token)) (unauthorized "Refresh token invalid")
    respond nonce user

  -- `changePassword`
  unfoldable pub change_password : ℕ → Uid → Text → Text → Action (Unit {0})
  unfolding find_user update_user
  change_password nonce user_id current_password new_password = do
    user ← or_throw (← gets (find_user user_id)) (unauthorized "Invalid credentials")
    throw_if (not user.is_active) (unauthorized "Invalid credentials")
    throw_if (not (crypto.verify user.password_hash current_password))
        (unauthorized "Invalid credentials")
    update_user user.id (λ x. record x {
      password_hash = crypto.hash nonce new_password;
      must_change_password = false;
    })
    pure tt
