-- ===== src/Routes/Platform.antt =====
-- platform/platform-orgs.controller.ts: the routes behind the guard of the platform. The listings
-- of administrators are left out.
use towerdesk_backend.Common.{
  ℕ, Bool, true, String, Option, none, some, List, [], ◌∷◌, ◌≡◌, ◌⊎◌, string_eq, has, every,
  split_on, is_some, arith, Option-cases, Bool-cases, inl, inr, not, ◌&&◌,
}
use towerdesk_backend.Store.{Uid, Time, Text, User, Db, Action, ok, ◌>>=◌, pure, bind-ok}
use towerdesk_backend.Store.Estate.{OrgProfile}
use towerdesk_backend.Access.{effective_permissions}
use towerdesk_backend.Scope.{AuthenticatedUser}
use towerdesk_backend.Org.{find_user}
use towerdesk_backend.Auth.{
  Crypto, JwtPayload, PlatformRequest, is_platform_key, bearer, check_platform_user,
  platform_auth_guard,
}
use towerdesk_backend.Accounts.{CreateOrgAdminDto, create_org, list_orgs, create_org_admin}
use towerdesk_backend.Maintenance.{done}

pub data PlatformCall : Type 0 where
  create : Uid → Time → OrgProfile → PlatformCall
  list : PlatformCall
  create_admin : ℕ → Uid → Text → Uid → CreateOrgAdminDto → PlatformCall

-- `@RequirePermissions`
unfoldable pub platform_permissions : PlatformCall → List String
platform_permissions (create _ _ _) = "platform.org.create" ∷ []
platform_permissions list = "platform.org.read" ∷ []
platform_permissions (create_admin _ _ _ _ _) = "platform.org.admin.create" ∷ []

module _ (crypto : Crypto) where
  unfoldable pub platform_handler : PlatformCall → Action (Unit {0})
  platform_handler (create id now dto) = done (create_org id now dto)
  platform_handler list = done list_orgs
  platform_handler (create_admin nonce id temp org_id dto) =
      done (create_org_admin crypto nonce id temp org_id dto)

  -- A call of one of these routes, as the application answers it; `api_key` is that of the
  -- environment.
  unfoldable pub answer_platform : Option Text → PlatformRequest → PlatformCall → Action (Unit {0})
  unfolding platform_auth_guard platform_handler
  answer_platform api_key request call =
      platform_auth_guard crypto api_key (platform_permissions call) request >>= λ _.
      platform_handler call

-- The user is active and of no organisation, and holds the permissions.
abbrev pub is_platform_user : Db → List String → User → Bool
is_platform_user db permissions x =
    x.is_active
    && (not (is_some x.org_id) && every (has (effective_permissions db x.id)) permissions)

-- What the token of the header stands for.
abbrev pub bearer_payload : Crypto → PlatformRequest → Option JwtPayload
bearer_payload crypto request = elim request.authorization [
  | none ↦ none
  | some header ↦ elim (bearer (split_on 32 header)) [
    | none ↦ none
    | some token ↦ crypto.verify_access token
  ]
]

platform_user_checks :
    (crypto : Crypto) (permissions : List String) (request : PlatformRequest) (db : Db)
    (a : AuthenticatedUser) (header token : Text) (payload : JwtPayload) (x : User)
    → request.effective_permissions ≡ none
    → (check_platform_user crypto permissions request db).0 ≡ ok a
    → request.authorization ≡ some header
    → bearer (split_on 32 header) ≡ some token
    → crypto.verify_access token ≡ some payload
    → find_user payload.sub db ≡ some x
    → is_platform_user db permissions x ≡ true
unfolding check_platform_user
platform_user_checks crypto permissions request db a header token payload x e h r t v f =
    ground arith

check_platform_user-ok :
    (crypto : Crypto) (permissions : List String) (request : PlatformRequest) (db : Db)
    (a : AuthenticatedUser)
    → request.effective_permissions ≡ none
    → (check_platform_user crypto permissions request db).0 ≡ ok a
    → (payload : JwtPayload) × (x : User) × (bearer_payload crypto request ≡ some payload)
      × (find_user payload.sub db ≡ some x)
      × (is_platform_user db permissions x ≡ true)
unfolding check_platform_user
check_platform_user-ok crypto permissions request db a e h =
    elim (Option-cases request.authorization) [
      | inl r ↦ ground arith
      | inr (header, r) ↦ elim (Option-cases (bearer (split_on 32 header))) [
        | inl t ↦ ground arith
        | inr (token, t) ↦ elim (Option-cases (crypto.verify_access token)) [
          | inl v ↦ ground arith
          | inr (payload, v) ↦ elim (Option-cases (find_user payload.sub db)) [
            | inl f ↦ ground arith
            | inr (x, f) ↦ (
              payload,
              x,
              ground arith,
              f,
              platform_user_checks crypto permissions request db a header token payload x e h r t v
                  f,
            )
          ]
        ]
      ]
    ]

-- For a request whose permissions are not loaded yet, a route of the platform answers without an
-- error only to the platform's key, or for the token of an active user of no organisation who
-- holds the permission of the route.
pub answer_platform-ok :
    (crypto : Crypto) (api_key : Option Text) (request : PlatformRequest) (call : PlatformCall)
    (db : Db)
    → request.effective_permissions ≡ none
    → (answer_platform crypto api_key request call db).0 ≡ ok tt
    → (is_platform_key api_key request.platform_key ≡ true)
      ⊎ ((payload : JwtPayload) × (x : User) × (bearer_payload crypto request ≡ some payload)
          × (find_user payload.sub db ≡ some x)
          × (is_platform_user db (platform_permissions call) x ≡ true))
unfolding answer_platform platform_auth_guard
answer_platform-ok crypto api_key request call db e h =
    elim (Bool-cases (is_platform_key api_key request.platform_key)) [
      | inl k ↦ inl k
      | inr k ↦
          let required : List String = platform_permissions call in
          let (guarded, g, _) =
            bind-ok (platform_auth_guard crypto api_key required request)
              (λ _. platform_handler crypto call) db tt h in
          let g' : ((check_platform_user crypto required request >>= λ user. pure (some user)) db).0
              ≡ ok guarded =
            ground arith in
          let (a, c, _) =
            bind-ok (check_platform_user crypto required request) (λ user. pure (some user)) db
              guarded g' in
          inr (check_platform_user-ok crypto required request db a e c)
    ]
