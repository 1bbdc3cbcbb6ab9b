-- ===== src/Accounts/Profile.antt =====
-- users.service.ts: a user's own profile.
use towerdesk_backend.Common.{
  Option, none, some, List, [], ◌∷◌, ◌≡◌, refl, ◌==◌, nat_eq, find, update, if◌then◌else◌, arith,
  Option-cases, inl, inr, find-holds,
}
use towerdesk_backend.Store.{
  Uid, Text, User, Db, Action, Result, ok, err, ◌>>=◌, ◌>>◌, pure, gets, or_throw, not_found,
}
use towerdesk_backend.Org.{find_user}
use towerdesk_backend.Auth.{get_role_keys, update_user}
use towerdesk_backend.Accounts.Members.{UserResponse, get_user}
use towerdesk_backend.Accounts.Platform.{or_old}

pub record UpdateUserProfileDto : Type 0 where
  pub name : Option Text
  pub avatar_url : Option Text
  pub phone : Option Text

-- `UsersRepo.updateProfile`: what is undefined stays.
abbrev pub patch_user : UpdateUserProfileDto → User → User
patch_user dto u = record u {
  name = or_old dto.name u.name;
  avatar_url = or_old dto.avatar_url u.avatar_url;
  phone = or_old dto.phone u.phone;
}

-- `updateProfile`
unfoldable pub update_profile : Uid → UpdateUserProfileDto → Action UserResponse
unfolding find_user update_user get_role_keys
update_profile id dto = do
  or_throw (← gets (find_user id)) (not_found "User not found")
  updated ← update_user id (patch_user dto)
  role_keys ← gets (λ db. get_role_keys db id)
  pure (record { user = updated; role_keys = role_keys })

abbrev patched : (User → User) → Option User → Option User
patched patch none = none
patched patch (some u) = some (patch u)

find_user-update :
    (id k : Uid) (dto : UpdateUserProfileDto) (users : List User)
    → find (λ (u : User). u.id == k) (update (λ (u : User). u.id) id (patch_user dto) users) ≡ (
        if k == id
        then patched (patch_user dto) (find (λ (u : User). u.id == k) users)
        else find (λ (u : User). u.id == k) users)
unfolding find update
find_user-update id k dto [] = ground arith
find_user-update id k dto (u ∷ users) = ground (arith, find_user-update id k dto users)

-- The rows after a change.
unfoldable updated_rows : Uid → UpdateUserProfileDto → Db → Db
updated_rows id dto db = record db {
  users = update (λ (u : User). u.id) id (patch_user dto) db.users;
}

update_profile_found :
    (id : Uid) (dto : UpdateUserProfileDto) (db : Db) (x : User)
    → find_user id db ≡ some x
    → update_profile id dto db ≡ (
      ok (record { user = patch_user dto x; role_keys = get_role_keys db id }),
      updated_rows id dto db,
    )
unfolding update_profile update_user get_role_keys updated_rows
update_profile_found id dto db x f = ground (arith, f)

get_user_found :
    (k : Uid) (db : Db) (x : User)
    → find_user k db ≡ some x
    → (get_user k db).0 ≡ ok (record { user = x; role_keys = get_role_keys db k })
unfolding get_user find_user
get_user_found k db x f =
    let same : x.id ≡ k = ground (arith, find-holds (λ (u : User). u.id == k) db.users f) in
    rw (← same) (ground (arith, f))

missing_user :
    (k : Uid) (db : Db)
    → find_user k db ≡ none
    → (get_user k db).0 ≡ err (not_found "User not found")
unfolding get_user
missing_user k db f = ground (arith, f)

missing_profile :
    (id : Uid) (dto : UpdateUserProfileDto) (db : Db)
    → find_user id db ≡ none
    → update_profile id dto db ≡ (err (not_found "User not found"), db)
unfolding update_profile
missing_profile id dto db f = ground (arith, f)

find_user-updated :
    (id k : Uid) (dto : UpdateUserProfileDto) (db : Db)
    → find_user k (updated_rows id dto db)
      ≡ (if k == id then patched (patch_user dto) (find_user k db) else find_user k db)
unfolding find_user updated_rows
find_user-updated id k dto db = find_user-update id k dto db.users

role_keys-updated :
    (id k : Uid) (dto : UpdateUserProfileDto) (db : Db)
    → get_role_keys (updated_rows id dto db) k ≡ get_role_keys db k
unfolding get_role_keys updated_rows
role_keys-updated id k dto db = refl

-- What reading a user answers, by what is found of the user.
abbrev response_of : Db → Uid → Option User → Result UserResponse
response_of db k none = err (not_found "User not found")
response_of db k (some x) = ok (record { user = x; role_keys = get_role_keys db k })

get_user_lem : (k : Uid) (db : Db) → (get_user k db).0 ≡ response_of db k (find_user k db)
get_user_lem k db = elim (Option-cases (find_user k db)) [
  | inl n ↦ rw n (missing_user k db n)
  | inr (x, f) ↦ rw f (get_user_found k db x f)
]

-- After a user's profile is changed, reading the user answers what the change answered, and
-- reading any other user answers what it answered before.
pub get_user-update_profile :
    (id k : Uid) (dto : UpdateUserProfileDto) (db : Db)
    → (get_user k (update_profile id dto db).1).0
      ≡ (if k == id then (update_profile id dto db).0 else (get_user k db).0)
get_user-update_profile id k dto db = elim (Option-cases (find_user id db)) [
  | inl n ↦ ground (arith, missing_profile id dto db n, missing_user id db n)
  | inr (x, f) ↦ ground (
    arith,
    f,
    update_profile_found id dto db x f,
    get_user_lem k (updated_rows id dto db),
    get_user_lem k db,
    find_user-updated id k dto db,
    role_keys-updated id k dto db,
  )
]
