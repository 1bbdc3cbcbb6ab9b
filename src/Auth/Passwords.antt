-- ===== src/Auth/Passwords.antt =====
-- The change of a password, and who may log in.
use towerdesk_backend.Common.{
  ℕ, true, false, ◌&&◌, some, ◌≡◌, refl, ap, ◌∙◌, ◌==◌, nat_eq, text_eq, find-holds, update,
  UniqueKeys, find_by_key, find-update, arith, Option-cases, inl, inr, text_beq_iff,
}
use towerdesk_backend.Store.{Uid, Text, User, Db}
use towerdesk_backend.Org.{find_user, find_user_by_email}
use towerdesk_backend.Maintenance.Visibility.{is_ok}
use towerdesk_backend.Auth.Service.{Crypto, login, change_password, update_user}
use towerdesk_backend.Auth.Sessions.{CryptoLaws, user_id_of, respond_lem}

abbrev with_password : Crypto → ℕ → Text → User → User
with_password crypto n p x = record x {
  password_hash = crypto.hash n p;
  must_change_password = false;
}

change_password_found :
    (crypto : Crypto) (n : ℕ) (id : Uid) (old new : Text) (db : Db)
    → is_ok (change_password crypto n id old new db).0 ≡ true
    → (x : User) × (find_user id db ≡ some x)
      × (x.id ≡ id)
      × (x.is_active ≡ true)
      × ((change_password crypto n id old new db).1.users
          ≡ update user_id_of x.id (with_password crypto n new) db.users)
unfolding change_password update_user find_user
change_password_found crypto n id old new db h = elim (Option-cases (find_user id db)) [
  | inl e ↦ ground (arith, e)
  | inr (x, e) ↦
      let k : x.id ≡ id = ground (arith, find-holds (λ y. y.id == id) db.users e) in
      (x, e, k, ground (arith, e), ground (arith, e))
]

-- A password verifies against the hash of another exactly if it is that one.
verify_lem :
    (crypto : Crypto) (laws : CryptoLaws crypto) (n : ℕ) (p tried : Text)
    → crypto.verify (crypto.hash n p) tried ≡ (tried == p)
verify_lem crypto laws n p tried =
    ground (arith, laws.verify n p, laws.sound n p tried, text_beq_iff tried p)

-- The login of a user who is stored under the id and the email.
login_decides :
    (crypto : Crypto) (m : ℕ) (x : User) (tried : Text) (db : Db)
    → find_user x.id db ≡ some x
    → find_user_by_email x.email db ≡ some x
    → is_ok (login crypto m (record { email = x.email; password = tried }) db).0
      ≡ (x.is_active && crypto.verify x.password_hash tried)
unfolding login
login_decides crypto m x tried db e f = ground (arith, (respond_lem crypto m x db e).0)

-- Ids being unique, the user being the one with the email, and given what is known of argon2 and
-- of JWT: whoever has changed the password can log in with the new one, and with no other.
pub login-change_password :
    (crypto : Crypto) (laws : CryptoLaws crypto) (n m : ℕ) (x : User) (old new tried : Text)
    (db : Db)
    → UniqueKeys user_id_of db.users
    → find_user_by_email x.email db ≡ some x
    → is_ok (change_password crypto n x.id old new db).0 ≡ true
    → is_ok
        (login crypto m
          (record { email = x.email; password = tried })
          (change_password crypto n x.id old new db).1).0
      ≡ (tried == new)
unfolding find_user find_user_by_email
login-change_password crypto laws n m x old new tried db u e h =
    let (y, f, k, active, s) = change_password_found crypto n x.id old new db h in
    let g = find_by_key user_id_of (λ y. y.email == x.email) db.users x u e in
    let same : y ≡ x = ground (arith, f, g) in
    let patch = with_password crypto n new in
    let db' = (change_password crypto n x.id old new db).1 in
    let s' : db'.users ≡ update user_id_of x.id patch db.users =
      s ∙ ap (λ j. update user_id_of j patch db.users) k in
    let by_id : find_user x.id db' ≡ some (patch x) =
      rw s' (find-update user_id_of (λ y. y.id == x.id) patch db.users x (λ y. refl) g) in
    let by_email : find_user_by_email x.email db' ≡ some (patch x) =
      rw s' (find-update user_id_of (λ y. y.email == x.email) patch db.users x (λ y. refl) e) in
    ground (
      arith,
      login_decides crypto m (patch x) tried db' by_id by_email,
      verify_lem crypto laws n new tried,
    )
