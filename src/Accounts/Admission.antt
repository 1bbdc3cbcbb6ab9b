-- ===== src/Accounts/Admission.antt =====
-- Users who are created for an organisation, and their first login.
use towerdesk_backend.Common.{
  ℕ, Bool, true, false, none, some, List, [], ◌∷◌, ◌++◌, ◌≡◌, refl, ◌==◌, nat_eq, any, find,
  or_default, is_some, arith,
}
use towerdesk_backend.Store.{Uid, Text, User, Role, Db, err, bad_request, conflict}
use towerdesk_backend.Access.{find_role_by_key}
use towerdesk_backend.Org.{find_user_by_email, create_user}
use towerdesk_backend.Auth.{Crypto}
use towerdesk_backend.Accounts.Members.{CreateOrgUserDto, temp_user}
use towerdesk_backend.Accounts.Platform.{CreateOrgAdminDto, create_org_admin, find_org}

find-append :
    {A : Type 0} (p : A → Bool) (xs : List A) (x : A)
    → find p xs ≡ none
    → p x ≡ true
    → find p (xs ++ x ∷ []) ≡ some x
unfolding find
find-append p [] x h k = ground arith
find-append p (y ∷ xs) x h k = ground (arith, find-append p xs x)

find-none-any :
    (email : Uid) (rows : List User)
    → find (λ x. x.email == email) rows ≡ none
    → any (λ x. x.email == email) rows ≡ false
unfolding find any
find-none-any email [] h = refl
find-none-any email (x ∷ rows) h = ground (arith, find-none-any email rows)

-- The row that `createInOrg` adds.
abbrev pub admitted : Crypto → ℕ → Uid → Text → Uid → CreateOrgUserDto → User
admitted crypto k id temp o dto =
    temp_user crypto k id dto.email dto.name (or_default dto.password temp) o

-- Where the role `org_admin` is not there, the organisation is, and the email is free: the call
-- for an administrator throws, but the user stays, and whoever calls again, with the role there by
-- then or not, is told that the email is in use.
pub create_org_admin-leaves_user :
    (crypto : Crypto) (k m : ℕ) (id id' : Uid) (temp temp' : Text) (org_id : Uid)
    (dto : CreateOrgAdminDto) (roles : List Role) (db : Db)
    → is_some (find_org org_id db) ≡ true
    → find_user_by_email dto.email db ≡ none
    → find_role_by_key "org_admin" db ≡ none
    → let left = record db {
      users =
          db.users
          ++ temp_user crypto k id dto.email dto.name (or_default dto.password temp) org_id ∷ [];
    } in
      let retried = record left { roles = roles } in
      (create_org_admin crypto k id temp org_id dto db
        ≡ (err (bad_request "ORG_ADMIN role not configured"), left))
      × (create_org_admin crypto m id' temp' org_id dto retried
          ≡ (err (conflict "Email already in use"), retried))
unfolding create_org_admin find_org find_user_by_email create_user find_role_by_key
create_org_admin-leaves_user crypto k m id id' temp temp' org_id dto roles db o f r =
    let x = temp_user crypto k id dto.email dto.name (or_default dto.password temp) org_id in
    let g : find (λ y. y.email == dto.email) (db.users ++ x ∷ []) ≡ some x =
      find-append (λ y. y.email == dto.email) db.users x f (ground arith) in
    (ground (arith, find-none-any dto.email db.users), ground (arith, g))
