-- ===== src/Org/Occupancies.antt =====
-- occupancies.service.ts and occupancies.repo.ts.
use towerdesk_backend.Common.{
  ℕ, Bool, false, Option, none, some, List, ◌==◌, nat_eq, ◌&&◌, ◌||◌, not, leb, length, select,
  sort_by,
}
use towerdesk_backend.Store.{
  Uid, Time, is_active_status, Occupancy, Action, ◌>>=◌, ◌>>◌, pure, gets, transaction, or_throw,
  throw_if, not_found, bad_request, conflict,
}
use towerdesk_backend.Scope.{AuthenticatedUser, assert_org_scope, find_building}
use towerdesk_backend.Org.Directory.{
  find_unit_for_building, find_user, find_active_occupancy, active_occupancy, create_occupancy,
}

-- `createActiveIfVacant`
unfoldable pub create_active_if_vacant : Uid → Time → Uid → Uid → Uid → Action (Option Occupancy)
unfolding find_active_occupancy create_occupancy
create_active_if_vacant id now building_id unit_id resident_user_id = transaction (do
  existing ← gets (find_active_occupancy unit_id)
  elim existing [
    | some _ ↦ pure none
    | none ↦ do
      row ← create_occupancy (active_occupancy id now building_id unit_id resident_user_id)
      pure (some row)
  ])

-- `user.orgId === orgId`
abbrev pub is_in_org : Uid → Option Uid → Bool
is_in_org org_id none = false
is_in_org org_id (some o) = o == org_id

-- `OccupanciesService.create`
unfoldable pub create_occupancy_for :
    Uid → Time → Option AuthenticatedUser → Uid → Uid → Uid → Action Occupancy
unfolding assert_org_scope find_building find_unit_for_building find_user create_active_if_vacant
create_occupancy_for id now user building_id unit_id resident_user_id = do
  org_id ← assert_org_scope user
  or_throw (← gets (find_building building_id org_id)) (not_found "Building not found")
  unit ←
      or_throw (← gets (find_unit_for_building building_id unit_id))
        (bad_request "Unit not in building")
  resident ← or_throw (← gets (find_user resident_user_id)) (bad_request "Resident not in org")
  throw_if (not resident.is_active || not (is_in_org org_id resident.org_id))
      (bad_request "Resident not in org")
  created ← create_active_if_vacant id now building_id unit.id resident.id
  or_throw created (conflict "Unit is already occupied")

abbrev pub is_active_in : Uid → Occupancy → Bool
is_active_in building_id o = o.building_id == building_id && is_active_status o.status

abbrev pub later_occupancy : Occupancy → Occupancy → Bool
later_occupancy a b = leb b.created_at a.created_at

-- `list`
unfoldable pub list_occupancies : Option AuthenticatedUser → Uid → Action (List Occupancy)
unfolding assert_org_scope find_building
list_occupancies user building_id = do
  org_id ← assert_org_scope user
  or_throw (← gets (find_building building_id org_id)) (not_found "Building not found")
  gets (λ db. sort_by later_occupancy (select (is_active_in building_id) db.occupancies))

-- `countActive`
unfoldable pub count_active : Option AuthenticatedUser → Uid → Action ℕ
unfolding assert_org_scope find_building
count_active user building_id = do
  org_id ← assert_org_scope user
  or_throw (← gets (find_building building_id org_id)) (not_found "Building not found")
  gets (λ db. length (select (is_active_in building_id) db.occupancies))
