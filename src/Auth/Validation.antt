-- ===== src/Auth/Validation.antt =====
-- auth-validation.service.ts, refresh-token.guard.ts, and
-- common/guards/platform-auth.guard.ts.
use towerdesk_backend.Common.{
  zero, suc, ℕ, Bool, true, false, String, Option, none, some, List, [], ◌∷◌, ◌==◌, nat_eq,
  string_eq, text_eq, not, ◌&&◌, ◌||◌, every, has, includes, is_empty, is_some, or_default,
  split_on, trim, leb, if◌then◌else◌, codes, suc,
}
use towerdesk_backend.Store.{
  Uid, Text, User, Action, ◌>>=◌, ◌>>◌, pure, gets, or_throw, throw_if, throw, unauthorized,
  forbidden, bad_request,
}
use towerdesk_backend.Access.{effective_permissions}
use towerdesk_backend.Scope.{AuthenticatedUser, truthy}
use towerdesk_backend.Org.{find_user}
use towerdesk_backend.Auth.Service.{JwtPayload, Crypto, get_role_keys}

-- `payload.orgId !== undefined && payload.orgId !== userOrgId`
abbrev pub differs : Option (Option Uid) → Option Uid → Bool
differs none user_org_id = false
differs (some none) none = false
differs (some none) (some o) = true
differs (some (some o)) none = true
differs (some (some o)) (some o') = not (o == o')

-- `platform_superadmin` may act in the organisation that the request names, if the user has none.
unfoldable pub scope_of : User → Option Uid → Action (Option Uid)
unfolding get_role_keys
scope_of user override =
    if not (is_some (truthy user.org_id)) && is_some (truthy override)
    then (gets (λ db. get_role_keys db user.id) >>= λ role_keys.
        (throw_if (not (includes role_keys "platform_superadmin")) (unauthorized "Unauthorized")
          >> pure override))
    else pure user.org_id

-- `validatePayload`
unfoldable pub validate_payload : JwtPayload → Option Uid → Action AuthenticatedUser
unfolding find_user scope_of
validate_payload payload override = do
  user ← or_throw (← gets (find_user payload.sub)) (unauthorized "Unauthorized")
  throw_if (not user.is_active) (unauthorized "Unauthorized")
  throw_if (differs payload.org_id user.org_id) (unauthorized "Unauthorized")
  org_id ← scope_of user override
  pure (record { sub = user.id; org_id = org_id })

-- A value of a header, of a query or of a handshake.
pub data RawValue : Type 0 where
  absent : RawValue
  text_value : Text → RawValue
  other_value : RawValue
  -- an array, with its first element if that is a string
  array_value : Option Text → RawValue

abbrev pub is_hex : ℕ → Bool
is_hex c = (leb 48 c && leb c 57) || ((leb 97 c && leb c 102) || (leb 65 c && leb c 70))

-- The text is a run of so many hexadecimal digits.
abbrev pub is_hex_run : ℕ → Text → Bool
is_hex_run zero [] = true
is_hex_run zero (c ∷ cs) = false
is_hex_run (suc n) [] = false
is_hex_run (suc n) (c ∷ cs) = is_hex c && is_hex_run n cs

abbrev pub is_uuid_parts : List Text → Bool
is_uuid_parts (a ∷ b ∷ c ∷ d ∷ e ∷ []) =
    is_hex_run 8 a && (is_hex_run 4 b && (is_hex_run 4 c && (is_hex_run 4 d && is_hex_run 12 e)))
is_uuid_parts _ = false

-- The regular expression `uuidV4ish`: five runs of digits with a `-` between them
unfoldable pub is_uuid : Text → Bool
is_uuid text = is_uuid_parts (split_on 45 text)

unfoldable pub parse_text : Text → Action (Option Text)
unfolding is_uuid
parse_text raw =
    if is_empty (trim raw)
    then pure none
    else if is_uuid (trim raw)
    then pure (some (trim raw))
    else throw (bad_request "Invalid org scope")

-- `parseOrgIdOverride`
unfoldable pub parse_org_id_override : RawValue → Action (Option Text)
unfolding parse_text
parse_org_id_override absent = pure none
parse_org_id_override (text_value raw) = parse_text raw
parse_org_id_override (array_value (some raw)) = parse_text raw
parse_org_id_override (array_value none) = throw (bad_request "Invalid org scope")
parse_org_id_override other_value = throw (bad_request "Invalid org scope")

-- What the guard of the platform's routes reads of a request.
pub record PlatformRequest : Type 0 where
  pub platform_key : Option Text
  pub authorization : Option Text
  pub effective_permissions : Option (List String)

-- `env.PLATFORM_API_KEY && providedKey === env.PLATFORM_API_KEY`
abbrev pub is_platform_key : Option Text → Option Text → Bool
is_platform_key none provided = false
is_platform_key (some key) none = false
is_platform_key (some key) (some provided) = not (is_empty key) && provided == key

-- The token of `Bearer <token>`: the second part of the header, if it is not empty
abbrev pub bearer : List Text → Option Text
bearer (scheme ∷ token ∷ rest) =
    if scheme == codes "Bearer" then (if is_empty token then none else some token) else none
bearer _ = none

module _ (crypto : Crypto) where
  -- `verifyAccessToken`
  unfoldable pub verify_access_token : Text → Action JwtPayload
  verify_access_token token = or_throw (crypto.verify_access token) (unauthorized "Unauthorized")

  -- `RefreshTokenGuard`; the token is `none` if it is no string. The payload becomes the user.
  unfoldable pub refresh_token_guard : Option Text → Action Uid
  refresh_token_guard body_token = do
    token ← or_throw body_token (unauthorized "Refresh token missing")
    throw_if (is_empty token) (unauthorized "Refresh token missing")
    or_throw (crypto.verify_refresh token) (unauthorized "Invalid refresh token")

  -- The rest of `PlatformAuthGuard`, for a request without the key.
  unfoldable pub check_platform_user : List String → PlatformRequest → Action AuthenticatedUser
  unfolding find_user
  check_platform_user permissions request = do
    header ← or_throw request.authorization (unauthorized "Invalid platform key")
    throw_if (is_empty header) (unauthorized "Invalid platform key")
    token ← or_throw (bearer (split_on 32 header)) (unauthorized "Unauthorized")
    payload ← or_throw (crypto.verify_access token) (unauthorized "Unauthorized")
    user ← or_throw (← gets (find_user payload.sub)) (unauthorized "Unauthorized")
    throw_if (not user.is_active) (unauthorized "Unauthorized")
    throw_if (differs payload.org_id user.org_id) (unauthorized "Unauthorized")
    throw_if (is_some user.org_id) (forbidden "Platform access requires platform user")
    throw_if (is_empty permissions) (forbidden "Missing required permissions")
    loaded ← gets (λ db. effective_permissions db user.id)
    let effective = or_default request.effective_permissions loaded
    throw_if (not (every (has effective) permissions)) (forbidden "Missing required permissions")
    pure (record { sub = user.id; org_id = user.org_id })

  -- `PlatformAuthGuard`: the user that it sets, none where the key is accepted
  unfoldable pub platform_auth_guard :
      Option Text → List String → PlatformRequest → Action (Option AuthenticatedUser)
  unfolding check_platform_user
  platform_auth_guard api_key permissions request =
      if is_platform_key api_key request.platform_key
      then pure none
      else check_platform_user permissions request >>= λ user. pure (some user)
