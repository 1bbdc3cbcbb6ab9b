-- ===== src/Routes/Sessions.antt =====
-- auth/auth.controller.ts; the limits on the rate of calls are left out.
use towerdesk_backend.Common.{
  ℕ, Option, none, some, [], ◌∷◌, ◌≡◌, refl, arith, Option-cases, inl, inr, or_default, true,
}
use towerdesk_backend.Store.{Uid, Text, User, Db, Action, ok, ◌>>=◌, bind-ok}
use towerdesk_backend.Scope.{AuthenticatedUser}
use towerdesk_backend.Org.{find_user}
use towerdesk_backend.Auth.{
  Crypto, RegisterDto, LoginDto, register, login, refresh, change_password, refresh_token_guard,
}
use towerdesk_backend.Maintenance.{done}
use towerdesk_backend.Routes.Pipeline.{
  jwt_auth, guarded_by, plain_route, plain_request, with_user, serve,
}

-- The body of `refresh` may lack its token.
pub data AuthCall : Type 0 where
  register_user : ℕ → Uid → RegisterDto → AuthCall
  login_user : ℕ → LoginDto → AuthCall
  refresh_tokens : ℕ → Option Text → AuthCall
  change_own_password : ℕ → Text → Text → AuthCall

module _ (crypto : Crypto) where
  -- A call of one of these routes, as the application answers it. `RefreshTokenGuard` sets the
  -- user of its route.
  unfoldable pub answer_auth : Option AuthenticatedUser → AuthCall → Action (Unit {0})
  unfolding serve refresh_token_guard
  answer_auth user (register_user nonce id dto) = done (register crypto nonce id dto)
  answer_auth user (login_user nonce dto) = done (login crypto nonce dto)
  answer_auth user (refresh_tokens nonce token) = do
    user_id ← refresh_token_guard crypto token
    done (refresh crypto nonce user_id (or_default token []))
  answer_auth user (change_own_password nonce current next) =
      serve (plain_route (guarded_by (jwt_auth ∷ []) [])) (plain_request user)
        (λ user. with_user user (λ u. done (change_password crypto nonce u.sub current next)))

-- Whom a body's refresh token was issued for, and stands for still.
refresh-ok :
    (crypto : Crypto) (nonce : ℕ) (user_id : Uid) (token : Text) (db : Db)
    → ((done (refresh crypto nonce user_id token)) db).0 ≡ ok tt
    → (x : User) × (hash : Text) × (find_user user_id db ≡ some x)
      × (x.refresh_token_hash ≡ some hash)
      × (crypto.verify hash token ≡ true)
unfolding refresh
refresh-ok crypto nonce user_id token db h = elim (Option-cases (find_user user_id db)) [
  | inl f ↦ ground (arith, f)
  | inr (x, f) ↦ elim (Option-cases x.refresh_token_hash) [
    | inl g ↦ ground (arith, f, g)
    | inr (hash, g) ↦ (x, hash, f, g, ground (arith, f, g))
  ]
]

refresh_token_guard-ok :
    (crypto : Crypto) (body : Option Text) (db : Db) (user_id : Uid)
    → (refresh_token_guard crypto body db).0 ≡ ok user_id
    → (token : Text) × (body ≡ some token)
      × (crypto.verify_refresh token ≡ some user_id)
      × ((refresh_token_guard crypto body db).1 ≡ db)
unfolding refresh_token_guard
refresh_token_guard-ok crypto none db user_id h = ground arith
refresh_token_guard-ok crypto (some token) db user_id h = (token, refl, ground arith, ground arith)

-- The route `auth/refresh` answers without an error only for a signed refresh token of a stored
-- user, against the hash that is stored for that same user, whoever is signed in.
pub answer_auth-refresh :
    (crypto : Crypto) (user : Option AuthenticatedUser) (nonce : ℕ) (body : Option Text) (db : Db)
    → (answer_auth crypto user (refresh_tokens nonce body) db).0 ≡ ok tt
    → (token : Text) × (user_id : Uid) × (x : User) × (hash : Text) × (body ≡ some token)
      × (crypto.verify_refresh token ≡ some user_id)
      × (find_user user_id db ≡ some x)
      × (x.refresh_token_hash ≡ some hash)
      × (crypto.verify hash token ≡ true)
unfolding answer_auth
answer_auth-refresh crypto user nonce body db h =
    let (user_id, g, r) =
      bind-ok (refresh_token_guard crypto body)
        (λ user_id. done (refresh crypto nonce user_id (or_default body []))) db tt h in
    let (token, b, v, same) = refresh_token_guard-ok crypto body db user_id g in
    let r' : (done (refresh crypto nonce user_id token) db).0 ≡ ok tt = ground arith in
    let (x, hash, f, s, k) = refresh-ok crypto nonce user_id token db r' in
    (token, user_id, x, hash, b, v, f, s, k)
