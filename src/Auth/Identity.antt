-- ===== src/Auth/Identity.antt =====
-- Whom a token stands for, and in which organisation.
use towerdesk_backend.Common.{
  ℕ, true, false, not, ◌&&◌, Option, none, some, ◌≡◌, refl, ◌==◌, ◌⊎◌, nat_eq, string_eq,
  UniqueKeys, find-update, update, includes, is_some, arith, Option-cases, Bool-cases, inl, inr,
}
use towerdesk_backend.Store.{Uid, User, Db, ok, err, unauthorized, ◌>>=◌}
use towerdesk_backend.Scope.{AuthenticatedUser, truthy}
use towerdesk_backend.Org.{find_user}
use towerdesk_backend.Maintenance.Visibility.{is_ok}
use towerdesk_backend.Auth.Service.{
  Crypto, AuthResponse, LoginDto, JwtPayload, login, refresh, respond, get_role_keys, issue_tokens,
}
use towerdesk_backend.Auth.Validation.{validate_payload, verify_access_token, scope_of, differs}
use towerdesk_backend.Auth.Sessions.{
  CryptoLaws, user_id_of, answer, respond_lem, refresh_stored, with_token, login_found,
}

-- The organisation is the user's; or else the user has none, is a `platform_superadmin`, and the
-- request named it.
abbrev pub MayAct : Db → User → Option Uid → Option Uid → Type 0
MayAct db x override o =
    (o ≡ x.org_id)
    ⊎ ((is_some (truthy x.org_id) ≡ false)
        × (includes (get_role_keys db x.id) "platform_superadmin" ≡ true)
        × (o ≡ override))

scope_of_lem :
    (x : User) (override o : Option Uid) (db : Db)
    → (scope_of x override db).0 ≡ ok o
    → MayAct db x override o
unfolding scope_of
scope_of_lem x override o db h =
    elim (Bool-cases (not (is_some (truthy x.org_id)) && is_some (truthy override))) [
      | inl e ↦ inr (ground arith, ground arith, ground arith)
      | inr e ↦ inl (ground arith)
    ]

-- A token that is accepted is that of a stored user who is active, and the request then acts in
-- the user's organisation, or, for a `platform_superadmin` without one, in the one that it names.
pub validate_payload-MayAct :
    (payload : JwtPayload) (override : Option Uid) (db : Db) (a : AuthenticatedUser)
    → (validate_payload payload override db).0 ≡ ok a
    → (x : User) × (find_user payload.sub db ≡ some x)
      × (x.is_active ≡ true)
      × (a.sub ≡ x.id)
      × MayAct db x override a.org_id
unfolding validate_payload scope_of
validate_payload-MayAct payload override db a h = elim (Option-cases (find_user payload.sub db)) [
  | inl e ↦ ground (arith, e)
  | inr (x, e) ↦ (
    x,
    e,
    ground (arith, e),
    ground (arith, e),
    scope_of_lem x override a.org_id db (ground (arith, e)),
  )
]

differs_self : (o : Option Uid) → differs (some o) o ≡ false
differs_self none = refl
differs_self (some o) = ground arith

-- Ids being unique, and given what is known of argon2 and of JWT: the access token that a login
-- answers stands for the user, in the user's own organisation.
pub validate_payload-login :
    (crypto : Crypto) (laws : CryptoLaws crypto) (n : ℕ) (dto : LoginDto) (db : Db)
    (r : AuthResponse)
    → UniqueKeys user_id_of db.users
    → (login crypto n dto db).0 ≡ ok r
    → let db' = (login crypto n dto db).1 in
      (verify_access_token crypto r.tokens.access_token >>= λ p. validate_payload p none) db'
      ≡ (ok (record { sub = r.user.id; org_id = r.user.org_id }), db')
unfolding verify_access_token issue_tokens validate_payload scope_of
validate_payload-login crypto laws n dto db r u h =
    let (x, e, active, k) = login_found crypto n dto db r u h in
    let (a, _, stored) = respond_lem crypto n x db e in
    let r' : r ≡ answer crypto n x db = ground (arith, h, a, k) in
    let payload : JwtPayload = record {
      sub = x.id;
      email = some x.email;
      org_id = some x.org_id;
    } in
    rw (r', k) (ground (arith, laws.access n payload, differs_self x.org_id))

-- The user is made inactive.
abbrev pub deactivated : Uid → Db → Db
deactivated id db = record db {
  users = update user_id_of id (λ y. record y { is_active = false }) db.users;
}

-- Ids being unique, and given what is known of argon2 and of JWT: if a user is made inactive after
-- a login, every access token of the user is refused from then on, but the refresh token is still
-- exchanged for new tokens.
pub refresh-deactivated :
    (crypto : Crypto) (laws : CryptoLaws crypto) (n m : ℕ) (dto : LoginDto) (payload : JwtPayload)
    (override : Option Uid) (db : Db) (r : AuthResponse)
    → UniqueKeys user_id_of db.users
    → (login crypto n dto db).0 ≡ ok r
    → payload.sub ≡ r.user.id
    → let db' = deactivated r.user.id (login crypto n dto db).1 in
      (validate_payload payload override db' ≡ (err (unauthorized "Unauthorized"), db'))
      × (is_ok (refresh crypto m r.user.id r.tokens.refresh_token db').0 ≡ true)
unfolding validate_payload find_user issue_tokens
refresh-deactivated crypto laws n m dto payload override db r u h s =
    let (x, e, active, k) = login_found crypto n dto db r u h in
    let (a, _, stored) = respond_lem crypto n x db e in
    let r' : r ≡ answer crypto n x db = ground (arith, h, a, k) in
    let db' = deactivated x.id (respond crypto n x db).1 in
    let off : User = record x { is_active = false } in
    let found : find_user x.id db' ≡ some (with_token crypto n off) =
      find-update user_id_of (λ y. y.id == x.id) (λ y. record y { is_active = false })
        (respond crypto n x db).1.users (with_token crypto n x) (λ y. refl) stored in
    let s' : payload.sub ≡ x.id = ground (arith, s, r') in
    rw (r', k, s') (ground (arith, found), refresh_stored crypto laws m n off db' found)
