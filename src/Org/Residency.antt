-- ===== src/Org/Residency.antt =====
-- residents.service.ts: the profile of the resident who asks.
use towerdesk_backend.Common.{
  Bool, true, Option, none, some, List, [], ◌∷◌, ◌≡◌, refl, ◌==◌, nat_eq, ◌&&◌, any, select,
  sort_by, not, is_some, All, All-select, All-sort_by, any-select, any-sort_by, arith,
}
use towerdesk_backend.Store.{
  Uid, User, Building, Occupancy, is_active_status, Db, Action, ok, ◌>>=◌, ◌>>◌, pure, gets,
  or_throw, throw_if, unauthorized,
}
use towerdesk_backend.Scope.{AuthenticatedUser, assert_org_scope, require_user_id, org_of, sub_of}
use towerdesk_backend.Org.Directory.{find_user}
use towerdesk_backend.Org.Occupancies.{is_in_org, later_occupancy}

-- The occupancy is one of the resident that is active, in a building of the organisation.
abbrev pub is_residency : List Building → Uid → Uid → Occupancy → Bool
is_residency buildings org_id user_id o =
    o.resident_user_id == user_id
    && (is_active_status o.status
        && any (λ (b : Building). b.id == o.building_id && b.org_id == org_id) buildings)

-- `findFirst` with an order
abbrev pub first_of : List Occupancy → Option Occupancy
first_of [] = none
first_of (o ∷ _) = some o

pub record ResidentProfile : Type 0 where
  pub user : User
  pub occupancy : Option Occupancy

-- `getCurrentResidentProfile`
unfoldable pub current_resident_profile : Option AuthenticatedUser → Action ResidentProfile
unfolding assert_org_scope require_user_id find_user
current_resident_profile user = do
  org_id ← assert_org_scope user
  user_id ← require_user_id user
  resident ← or_throw (← gets (find_user user_id)) (unauthorized "Unauthorized")
  throw_if (not (is_in_org org_id resident.org_id)) (unauthorized "Unauthorized")
  occupancy ← gets (λ db.
      first_of (
        sort_by later_occupancy (select (is_residency db.buildings org_id user_id) db.occupancies)))
  pure (record { user = resident; occupancy = occupancy })

first_of-any :
    (p : Occupancy → Bool) (xs : List Occupancy)
    → All (λ x. p x ≡ true) xs
    → is_some (first_of xs) ≡ any p xs
unfolding any
first_of-any p [] h = refl
first_of-any p (x ∷ xs) h = ground (arith, h.0)

any_twice : (p : Occupancy → Bool) (xs : List Occupancy) → any (λ x. p x && p x) xs ≡ any p xs
unfolding any
any_twice p [] = refl
any_twice p (x ∷ xs) = ground (arith, any_twice p xs)

-- The occupancy, if there is one, passes the test.
abbrev pub fits : (Occupancy → Bool) → Option Occupancy → Bool
fits p none = true
fits p (some o) = p o

first_of-fits :
    (p : Occupancy → Bool) (xs : List Occupancy)
    → All (λ x. p x ≡ true) xs
    → fits p (first_of xs) ≡ true
first_of-fits p [] h = refl
first_of-fits p (x ∷ xs) h = h.0

-- The occupancy that a resident's profile shows is an active one of the resident in a building of
-- the caller's organisation, and one is shown exactly if there is such an occupancy.
pub current_resident_profile_lem :
    (user : Option AuthenticatedUser) (db : Db) (org_id user_id : Uid) (profile : ResidentProfile)
    → org_of user ≡ some org_id
    → sub_of user ≡ some user_id
    → (current_resident_profile user db).0 ≡ ok profile
    → (is_some profile.occupancy ≡ any (is_residency db.buildings org_id user_id) db.occupancies)
      × (fits (is_residency db.buildings org_id user_id) profile.occupancy ≡ true)
unfolding current_resident_profile
current_resident_profile_lem user db org_id user_id profile g s h =
    let p = is_residency db.buildings org_id user_id in
    let rows = sort_by later_occupancy (select p db.occupancies) in
    let all : All (λ x. p x ≡ true) rows =
      All-sort_by later_occupancy (λ x. p x ≡ true) (select p db.occupancies)
        (All-select p db.occupancies) in
    let shown : profile.occupancy ≡ first_of rows = ground arith in
    (
      ground (
        arith,
        shown,
        first_of-any p rows all,
        any-sort_by later_occupancy p (select p db.occupancies),
        any-select p p db.occupancies,
        any_twice p db.occupancies,
      ),
      rw (shown) (first_of-fits p rows all),
    )
