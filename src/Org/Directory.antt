-- ===== src/Org/Directory.antt =====
-- The queries that the services share: buildings.repo.ts, units.repo.ts and users.repo.ts, and the
-- writes of the user rows.
use towerdesk_backend.Common.{
  Bool, Option, none, [], ◌∷◌, ◌++◌, ◌==◌, nat_eq, string_eq, ◌&&◌, any, find,
}
use towerdesk_backend.Store.{
  Uid, Time, active, is_active_status, User, UnitRow, Occupancy, UserRole, Db, Action, ◌>>=◌, ◌>>◌,
  pure, gets, modify, throw_if, unique_violation,
}
use towerdesk_backend.Access.{same_user_role}

-- `UnitsRepo.findByIdForBuilding`
unfoldable pub find_unit_for_building : Uid → Uid → Db → Option UnitRow
find_unit_for_building building_id unit_id db =
    find (λ u. u.id == unit_id && u.building_id == building_id) db.units

-- `UsersRepo.findById`
unfoldable pub find_user : Uid → Db → Option User
find_user user_id db = find (λ u. u.id == user_id) db.users

-- `user.findUnique({ where: { email } })`
unfoldable pub find_user_by_email : Uid → Db → Option User
find_user_by_email email db = find (λ u. u.email == email) db.users

-- `user.create`: the email is unique.
unfoldable pub create_user : User → Action User
create_user user = do
  throw_if (any (λ u. u.email == user.email) (← gets (λ db. db.users))) unique_violation
  modify (λ db. record db { users = db.users ++ user ∷ [] })
  pure user

-- `userRole.create`: the pair is the primary key.
unfoldable pub create_user_role : UserRole → Action (Unit {0})
create_user_role row = do
  throw_if (any (same_user_role row) (← gets (λ db. db.user_roles))) unique_violation
  modify (λ db. record db { user_roles = db.user_roles ++ row ∷ [] })

-- An active occupancy of the unit.
abbrev pub occupies : Uid → Occupancy → Bool
occupies unit_id o = o.unit_id == unit_id && is_active_status o.status

-- `occupancy.findFirst({ where: { unitId, status: 'ACTIVE' } })`
unfoldable pub find_active_occupancy : Uid → Db → Option Occupancy
find_active_occupancy unit_id db = find (occupies unit_id) db.occupancies

abbrev pub active_occupancy : Uid → Time → Uid → Uid → Uid → Occupancy
active_occupancy id now building_id unit_id resident_user_id = record {
  id = id;
  building_id = building_id;
  unit_id = unit_id;
  resident_user_id = resident_user_id;
  status = active;
  end_at = none;
  created_at = now;
}

-- `occupancy.create` with the status ACTIVE
unfoldable pub create_occupancy : Occupancy → Action Occupancy
create_occupancy row = do
  modify (λ db. record db { occupancies = db.occupancies ++ row ∷ [] })
  pure row
