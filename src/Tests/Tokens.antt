-- ===== src/Tests/Tokens.antt =====
-- The theorems on authentication and on accounts, with a small argon2 and JWT: a hash is the salt
-- and the text, and a token the time and what it stands for.
use towerdesk_backend.Common.{
  ℕ, zero, suc, Bool, true, false, Option, none, some, [], ◌∷◌, ◌++◌, ◌≡◌, ◌≢◌, refl, ap, nat_eq,
  text_eq, text_beq, text_beq_iff, UniqueKeys, find, any, arith, string_eq, is_some,
}
use towerdesk_backend.Store.{Uid, Text, User, Db, ok, err, unauthorized, bad_request, conflict}
use towerdesk_backend.Store.Estate.{OrgProfile}
use towerdesk_backend.Access.{find_role_by_key}
use towerdesk_backend.Org.{find_user, find_user_by_email}
use towerdesk_backend.Maintenance.Visibility.{is_ok}
use towerdesk_backend.Auth.{
  Crypto, JwtPayload, LoginDto, login, refresh, change_password, validate_payload, issue_tokens,
}
use towerdesk_backend.Auth.Sessions.{CryptoLaws, user_id_of, answer, refresh-refresh}
use towerdesk_backend.Auth.Passwords.{login-change_password}
use towerdesk_backend.Auth.Identity.{
  MayAct, deactivated, validate_payload-MayAct, refresh-deactivated,
}
use towerdesk_backend.Accounts.{
  CreateOrgUserDto, CreatedUser, CreateOrgAdminDto, create_org_admin, find_org, temp_user,
}
use towerdesk_backend.Accounts.Admission.{create_org_admin-leaves_user}
use towerdesk_backend.Tests.Sample.{user_row, db}

abbrev verify_hash : Text → Text → Bool
verify_hash [] s = false
verify_hash (salt ∷ t) s = text_beq t s

abbrev email_code : Option Uid → ℕ
email_code none = 0
email_code (some x) = suc x

abbrev email_of_code : ℕ → Option Uid
email_of_code zero = none
email_of_code (suc x) = some x

abbrev org_code : Option (Option Uid) → ℕ
org_code none = 0
org_code (some none) = 1
org_code (some (some o)) = suc (suc o)

abbrev org_of_code : ℕ → Option (Option Uid)
org_of_code zero = none
org_of_code (suc zero) = some none
org_of_code (suc (suc o)) = some (some o)

abbrev read_access : Text → Option JwtPayload
read_access (time ∷ sub ∷ email ∷ org ∷ []) =
    some (record { sub = sub; email = email_of_code email; org_id = org_of_code org })
read_access _ = none

abbrev read_refresh : Text → Option Uid
read_refresh (time ∷ id ∷ []) = some id
read_refresh _ = none

abbrev pub crypto : Crypto
crypto = record {
  hash = λ salt t. salt ∷ t;
  verify = verify_hash;
  sign_access = λ time p. time ∷ p.sub ∷ email_code p.email ∷ org_code p.org_id ∷ [];
  verify_access = read_access;
  sign_refresh = λ time id. time ∷ id ∷ [];
  verify_refresh = read_refresh;
}

email_back : (e : Option Uid) → email_of_code (email_code e) ≡ e
email_back none = refl
email_back (some x) = refl

org_back : (o : Option (Option Uid)) → org_of_code (org_code o) ≡ o
org_back none = refl
org_back (some none) = refl
org_back (some (some o)) = refl

crypto-CryptoLaws : CryptoLaws crypto
crypto-CryptoLaws = record {
  verify = λ n t. (text_beq_iff t t).1 refl;
  sound = λ n t s h. ground (arith, (text_beq_iff t s).0 h);
  hash_full = λ n t. refl;
  access = λ n p. ground (arith, email_back p.email, org_back p.org_id);
  refresh = λ n id. refl;
  refresh_full = λ n id. refl;
  fresh = λ n m id h. cc;
}

-- A user with the password `7`, before the others.
abbrev member : User
member = record (user_row 8) { password_hash = 0 ∷ 7 ∷ [] }

abbrev members : Db
members = record db { users = member ∷ db.users }

unique_members : UniqueKeys user_id_of members.users
unfolding any
unique_members = ground arith

abbrev credentials : LoginDto
credentials = record { email = 8; password = 7 ∷ [] }

logged_in : (login crypto 1 credentials members).0 ≡ ok (answer crypto 1 member members)
unfolding login find find_user
logged_in = refl

-- The user with a token of the time 1.
abbrev signed_in : User
signed_in = record member { refresh_token_hash = some (0 ∷ 1 ∷ 8 ∷ []) }

abbrev session : Db
session = record db { users = signed_in ∷ db.users }

unique_session : UniqueKeys user_id_of session.users
unfolding any
unique_session = ground arith

refreshed : (refresh crypto 2 8 (1 ∷ 8 ∷ []) session).0 ≡ ok (answer crypto 2 signed_in session)
unfolding refresh find
refreshed = refl

other_time : ◌≢◌ {A = ℕ} 1 2
other_time h = omega arith

refresh-refresh_example :
    let db' = (refresh crypto 2 8 (1 ∷ 8 ∷ []) session).1 in
    refresh crypto 3 8 (1 ∷ 8 ∷ []) db' ≡ (err (unauthorized "Refresh token invalid"), db')
refresh-refresh_example =
    refresh-refresh crypto crypto-CryptoLaws 1 2 3 8 session (answer crypto 2 signed_in session)
      unique_session other_time refreshed

changed : is_ok (change_password crypto 2 8 (7 ∷ []) (5 ∷ []) members).0 ≡ true
unfolding change_password find
changed = refl

found_by_email : find_user_by_email 8 members ≡ some member
unfolding find_user_by_email find
found_by_email = refl

login-change_password_example :
    is_ok
      (login crypto 3
        (record { email = 8; password = 7 ∷ [] })
        (change_password crypto 2 8 (7 ∷ []) (5 ∷ []) members).1).0
    ≡ false
login-change_password_example =
    login-change_password crypto crypto-CryptoLaws 2 3 member (7 ∷ []) (5 ∷ []) (7 ∷ []) members
      unique_members found_by_email changed

abbrev payload : JwtPayload
payload = record { sub = 8; email = some 8; org_id = some (some 9) }

accepted : (validate_payload payload (some 4) members).0 ≡ ok (record { sub = 8; org_id = some 9 })
unfolding validate_payload find
accepted = refl

validate_payload-MayAct_example :
    (x : User) × (find_user 8 members ≡ some x)
    × (x.is_active ≡ true)
    × (8 ≡ x.id)
    × MayAct members x (some 4) (some 9)
validate_payload-MayAct_example =
    validate_payload-MayAct payload (some 4) members (record { sub = 8; org_id = some 9 }) accepted

refresh-deactivated_example :
    let db' = deactivated 8 (login crypto 1 credentials members).1 in
    (validate_payload payload none db' ≡ (err (unauthorized "Unauthorized"), db'))
    × (is_ok (refresh crypto 2 8 (1 ∷ 8 ∷ []) db').0 ≡ true)
unfolding issue_tokens
refresh-deactivated_example =
    refresh-deactivated crypto crypto-CryptoLaws 1 2 credentials payload none members
      (answer crypto 1 member members) unique_members logged_in refl

abbrev new_user_dto : CreateOrgUserDto
new_user_dto = record {
  email = 77;
  name = none;
  password = none;
  role_keys = some ("org_manager" ∷ "org_manager" ∷ []);
}

abbrev created : CreatedUser
created = record {
  user_id = 70;
  email = 77;
  temp_password = some (6 ∷ []);
  must_change_password = true;
}

abbrev empty_profile : OrgProfile
empty_profile = record {
  name = 1 ∷ [];
  logo_url = none;
  business_name = none;
  business_type = none;
  trade_license_number = none;
  vat_registration_number = none;
  registered_office_address = none;
  city = none;
  office_phone_number = none;
  business_email_address = none;
  website = none;
  owner_name = none;
}

-- The sample with its organisation; no role has the key `org_admin`.
abbrev pub platform : Db
platform = record db { orgs = record { id = 9; profile = empty_profile; created_at = 1 } ∷ [] }

abbrev admin_dto : CreateOrgAdminDto
admin_dto = record { email = 77; name = none; password = none }

org_there : find_org 9 platform ≡ some (record { id = 9; profile = empty_profile; created_at = 1 })
unfolding find_org find
org_there = refl

email_free : find_user_by_email 77 platform ≡ none
unfolding find_user_by_email find
email_free = refl

no_role : find_role_by_key "org_admin" platform ≡ none
unfolding find_role_by_key find
no_role = refl

create_org_admin-leaves_user_example :
    let left = record platform {
      users = db.users ++ temp_user crypto 1 70 77 none (6 ∷ []) 9 ∷ [];
    } in
    (create_org_admin crypto 1 70 (6 ∷ []) 9 admin_dto platform
      ≡ (err (bad_request "ORG_ADMIN role not configured"), left))
    × (create_org_admin crypto 2 71 (5 ∷ []) 9 admin_dto (record left { roles = [] })
        ≡ (err (conflict "Email already in use"), record left { roles = [] }))
create_org_admin-leaves_user_example =
    create_org_admin-leaves_user crypto 1 2 70 71 (6 ∷ []) (5 ∷ []) 9 admin_dto [] platform
      (ap is_some org_there) email_free no_role
