-- ===== src/Scope/Checks.antt =====
-- What the guards of the routes let through.
use towerdesk_backend.Common.{
  [], ◌∷◌, Bool, true, Option, none, some, List, ◌≡◌, refl, ◌==◌, nat_eq, ◌&&◌, ◌||◌, find, arith,
  any, if◌then◌else◌, is_some,
}
use towerdesk_backend.Store.{
  Uid, Db, ok, err, is_active_status, building_admin, manager, forbidden, not_found, staff,
}
use towerdesk_backend.Scope.User.{AuthenticatedUser, truthy, org_of, sub_of, is_truthy}
use towerdesk_backend.Scope.Buildings.{
  AccessOptions, find_building, may_read, may_write, has_global_permissions, has_active_occupancy,
}
use towerdesk_backend.Scope.Guards.{
  AccessLevel, read, write, RouteMetadata, Request, building_access_guard, options_of,
}
use towerdesk_backend.Scope.Levels.{has_assignment, assignment_tests}

-- The user lives in the building.
abbrev pub resides : Db → Uid → Uid → Bool
resides db building_id user_id =
    any
      (λ o.
        o.building_id == building_id
        && (o.resident_user_id == user_id && is_active_status o.status))
      db.occupancies

-- Whom the route is meant for, by the rows of the tables.
abbrev pub entitled : AccessLevel → RouteMetadata → Db → Uid → Uid → AccessOptions → Bool
entitled read route db building_id user_id options =
    has_global_permissions db user_id options
    || (has_assignment db building_id user_id building_admin
        || (has_assignment db building_id user_id manager
            || (has_assignment db building_id user_id staff
                || (route.resident_allowed && resides db building_id user_id))))
entitled write route db building_id user_id options =
    has_global_permissions db user_id options
    || (has_assignment db building_id user_id building_admin
        || (route.manager_write_allowed && has_assignment db building_id user_id manager))

pub find-any : {A : Type 0} (p : A → Bool) (l : List A) → is_some (find p l) ≡ any p l
unfolding find any
find-any p [] = refl
find-any p (x ∷ l) = ground (arith, find-any p l)

may_read_lem :
    (db : Db) (building_id user_id : Uid) (route : RouteMetadata) (request : Request)
    → may_read db building_id user_id (options_of read route request)
      ≡ entitled read route db building_id user_id (options_of read route request)
unfolding may_read has_active_occupancy
may_read_lem db building_id user_id route request = ground (
  arith,
  assignment_tests db building_id user_id,
  find-any
      (λ o.
        o.building_id == building_id
        && (o.resident_user_id == user_id && is_active_status o.status))
      db.occupancies,
)

may_write_lem :
    (db : Db) (building_id user_id : Uid) (route : RouteMetadata) (request : Request)
    → may_write db building_id user_id (options_of write route request)
      ≡ entitled write route db building_id user_id (options_of write route request)
unfolding may_write
may_write_lem db building_id user_id route request =
    ground (arith, assignment_tests db building_id user_id)

pub org_of-is_truthy :
    (user : Option AuthenticatedUser) {org_id : Uid}
    → org_of user ≡ some org_id
    → is_truthy org_id ≡ true
org_of-is_truthy none h = cc
org_of-is_truthy (some user) h = ground arith

-- For a signed-in user with an organisation, a guarded route answers by the rows alone: not found
-- unless the building is one of the organisation, else accepted exactly for those it is meant for,
-- and nothing is written.
pub building_access_guard_lem :
    (db : Db) (route : RouteMetadata) (request : Request) (level : AccessLevel)
    (user_id org_id building_id : Uid)
    → route.access_level ≡ some level
    → sub_of request.user ≡ some user_id
    → org_of request.user ≡ some org_id
    → truthy request.building_id ≡ some building_id
    → building_access_guard route request db ≡ (
      (if any (λ b. b.id == building_id && b.org_id == org_id) db.buildings
          then if entitled level route db building_id user_id (options_of level route request)
            then ok true
            else err (forbidden "Forbidden")
          else err (not_found "Building not found")),
      db,
    )
unfolding building_access_guard find_building
building_access_guard_lem db route request read user_id org_id building_id l s o b = ground (
  arith,
  org_of-is_truthy request.user o,
  may_read_lem db building_id user_id route request,
  find-any (λ x. x.id == building_id && x.org_id == org_id) db.buildings,
)
building_access_guard_lem db route request write user_id org_id building_id l s o b = ground (
  arith,
  org_of-is_truthy request.user o,
  may_write_lem db building_id user_id route request,
  find-any (λ x. x.id == building_id && x.org_id == org_id) db.buildings,
)

-- A request that the guard of a writing route accepts, the guard of the same route for reading
-- accepts too.
pub guard_write_read :
    (db : Db) (route : RouteMetadata) (request : Request)
    → building_access_guard (record route { access_level = some write }) request db ≡ (ok true, db)
    → building_access_guard (record route { access_level = some read }) request db ≡ (ok true, db)
unfolding building_access_guard may_write may_read has_global_permissions
guard_write_read db route request h = ground arith
