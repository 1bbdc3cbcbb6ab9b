-- ===== src/Auth/Sessions.antt =====
-- Login, and the refresh of tokens.
use towerdesk_backend.Common.{
  ℕ, true, false, some, ◌≡◌, ◌≢◌, refl, ◌==◌, nat_eq, find-holds, update, UniqueKeys, find_by_key,
  find-update, is_empty, arith, Option-cases, inl, inr, subst,
}
use towerdesk_backend.Store.{Uid, Text, User, Db, ok, err, unauthorized}
use towerdesk_backend.Org.{find_user, find_user_by_email}
use towerdesk_backend.Maintenance.Visibility.{is_ok}
use towerdesk_backend.Auth.Service.{
  JwtPayload, Crypto, AuthResponse, LoginDto, issue_tokens, respond, login, refresh,
  save_refresh_token, get_role_keys, derive_user_role, get_highest_building_assignment_type,
}

abbrev pub user_id_of : User → Uid
user_id_of x = x.id

-- What is known of argon2 and of JWT: a hash verifies the text that it was made of, and, as if
-- there were no collisions, no other; a token that was signed is read back; tokens that were signed
-- at different times differ; no hash and no token is empty.
pub record CryptoLaws (crypto : Crypto) : Type 0 where
  pub verify : (n : ℕ) (t : Text) → crypto.verify (crypto.hash n t) t ≡ true
  pub sound : (n : ℕ) (t s : Text) → crypto.verify (crypto.hash n t) s ≡ true → s ≡ t
  pub hash_full : (n : ℕ) (t : Text) → is_empty (crypto.hash n t) ≡ false
  pub access : (n : ℕ) (p : JwtPayload) → crypto.verify_access (crypto.sign_access n p) ≡ some p
  pub refresh : (n : ℕ) (id : Uid) → crypto.verify_refresh (crypto.sign_refresh n id) ≡ some id
  pub refresh_full : (n : ℕ) (id : Uid) → is_empty (crypto.sign_refresh n id) ≡ false
  pub fresh : (n m : ℕ) (id : Uid) → crypto.sign_refresh n id ≡ crypto.sign_refresh m id → n ≡ m

by_id-by_email :
    (email : Uid) (db : Db) (x : User)
    → UniqueKeys user_id_of db.users
    → find_user_by_email email db ≡ some x
    → find_user x.id db ≡ some x
unfolding find_user find_user_by_email
by_id-by_email email db x u e = find_by_key user_id_of (λ y. y.email == email) db.users x u e

-- The user that `respond` has stored the token for.
abbrev pub with_token : Crypto → ℕ → User → User
with_token crypto n x = record x {
  refresh_token_hash = some (crypto.hash n (crypto.sign_refresh n x.id));
}

-- What `respond` answers.
abbrev pub answer : Crypto → ℕ → User → Db → AuthResponse
answer crypto n x db =
    let db' = (save_refresh_token crypto n x.id (crypto.sign_refresh n x.id) db).1 in
    record {
      tokens = issue_tokens crypto n x;
      user = x;
      role_keys = get_role_keys db' x.id;
      role =
          derive_user_role (get_role_keys db' x.id) (get_highest_building_assignment_type db' x.id);
    }

-- The response is for the user, who is stored with the hash of its refresh token; other users are
-- as they were.
pub respond_lem :
    (crypto : Crypto) (n : ℕ) (x : User) (db : Db)
    → find_user x.id db ≡ some x
    → ((respond crypto n x db).0 ≡ ok (answer crypto n x db))
      × ((respond crypto n x db).1.users
          ≡ update user_id_of x.id
              (λ y. record y {
                refresh_token_hash = some (crypto.hash n (crypto.sign_refresh n x.id));
              })
              db.users)
      × (find_user x.id (respond crypto n x db).1 ≡ some (with_token crypto n x))
unfolding respond find_user
respond_lem crypto n x db e = (
  ground arith,
  ground arith,
  ground (
    arith,
    find-update user_id_of (λ y. y.id == x.id)
        (λ y. record y { refresh_token_hash = some (crypto.hash n (crypto.sign_refresh n x.id)) })
        db.users x (λ y. refl),
  ),
)

-- A token that was stored for the user is accepted.
pub refresh_stored :
    (crypto : Crypto) (laws : CryptoLaws crypto) (n m : ℕ) (x : User) (db : Db)
    → find_user x.id db ≡ some (with_token crypto m x)
    → is_ok (refresh crypto n x.id (crypto.sign_refresh m x.id) db).0 ≡ true
unfolding refresh
refresh_stored crypto laws n m x db e = ground (
  arith,
  laws.verify m (crypto.sign_refresh m x.id),
  laws.hash_full m (crypto.sign_refresh m x.id),
  (respond_lem crypto n (with_token crypto m x) db e).0,
)

pub login_found :
    (crypto : Crypto) (n : ℕ) (dto : LoginDto) (db : Db) (r : AuthResponse)
    → UniqueKeys user_id_of db.users
    → (login crypto n dto db).0 ≡ ok r
    → (x : User) × (find_user x.id db ≡ some x)
      × (x.is_active ≡ true)
      × (login crypto n dto db ≡ respond crypto n x db)
unfolding login
login_found crypto n dto db r u h = elim (Option-cases (find_user_by_email dto.email db)) [
  | inl e ↦ ground (arith, e)
  | inr (x, e) ↦ (x, by_id-by_email dto.email db x u e, ground (arith, e), ground (arith, e))
]

refresh_found :
    (crypto : Crypto) (n : ℕ) (id : Uid) (token : Text) (db : Db) (r : AuthResponse)
    → UniqueKeys user_id_of db.users
    → (refresh crypto n id token db).0 ≡ ok r
    → (x : User) × (find_user x.id db ≡ some x)
      × (x.id ≡ id)
      × (refresh crypto n id token db ≡ respond crypto n x db)
unfolding refresh find_user
refresh_found crypto n id token db r u h = elim (Option-cases (find_user id db)) [
  | inl e ↦ ground (arith, e)
  | inr (x, e) ↦
      let k : x.id ≡ id = ground (arith, find-holds (λ y. y.id == id) db.users e) in
      (x, ground (arith, k, e), k, ground (arith, e))
]

-- Another token than the one that is stored is refused.
refresh_other :
    (crypto : Crypto) (laws : CryptoLaws crypto) (n m : ℕ) (x : User) (token : Text) (db : Db)
    → find_user x.id db ≡ some (with_token crypto m x)
    → token ≢ crypto.sign_refresh m x.id
    → refresh crypto n x.id token db ≡ (err (unauthorized "Refresh token invalid"), db)
unfolding refresh
refresh_other crypto laws n m x token db e other = ground (
  arith,
  laws.sound m (crypto.sign_refresh m x.id) token,
  laws.hash_full m (crypto.sign_refresh m x.id),
)

-- Ids being unique, and given what is known of argon2 and of JWT: a session can be refreshed once
-- with a token that was signed at another time than the next; then that token is refused.
pub refresh-refresh :
    (crypto : Crypto) (laws : CryptoLaws crypto) (k n m : ℕ) (id : Uid) (db : Db) (r : AuthResponse)
    → UniqueKeys user_id_of db.users
    → k ≢ n
    → (refresh crypto n id (crypto.sign_refresh k id) db).0 ≡ ok r
    → let db' = (refresh crypto n id (crypto.sign_refresh k id) db).1 in
      refresh crypto m id (crypto.sign_refresh k id) db'
      ≡ (err (unauthorized "Refresh token invalid"), db')
refresh-refresh crypto laws k n m id db r u other h =
    let token = crypto.sign_refresh k id in
    let (x, e, i, s) = refresh_found crypto n id token db r u h in
    let (_, _, stored) = respond_lem crypto n x db e in
    rw s (
      subst
        (λ j.
          refresh crypto m j (crypto.sign_refresh k j) (respond crypto n x db).1
          ≡ (err (unauthorized "Refresh token invalid"), (respond crypto n x db).1))
        i
        (refresh_other crypto laws m n x (crypto.sign_refresh k x.id) (respond crypto n x db).1
          stored (λ t. other (laws.fresh k n x.id t))))
