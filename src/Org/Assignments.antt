-- ===== src/Org/Assignments.antt =====
-- building-assignments.service.ts and building-assignments.repo.ts.
use towerdesk_backend.Common.{
  Bool, Option, [], ◌∷◌, ◌++◌, ◌==◌, nat_eq, ◌&&◌, ◌||◌, not, any, if◌then◌else◌,
}
use towerdesk_backend.Store.{
  Uid, AssignmentType, building_admin, type_eq, BuildingAssignment, Error, unique_violation, Action,
  ok, err, ◌>>=◌, ◌>>◌, pure, gets, modify, or_throw, throw_if, not_found, bad_request, conflict,
}
use towerdesk_backend.Access.{find_role_by_key, create_user_roles}
use towerdesk_backend.Scope.{AuthenticatedUser, assert_org_scope, find_building}
use towerdesk_backend.Org.Directory.{find_user}
use towerdesk_backend.Org.Occupancies.{is_in_org}

abbrev pub same_assignment : BuildingAssignment → BuildingAssignment → Bool
same_assignment a b = a.building_id == b.building_id && (a.user_id == b.user_id && a.type == b.type)

-- `BuildingAssignmentsRepo.create`: building, user and type are unique together.
unfoldable pub create_assignment : BuildingAssignment → Action BuildingAssignment
create_assignment row = do
  throw_if (any (same_assignment row) (← gets (λ db. db.assignments))) unique_violation
  modify (λ db. record db { assignments = db.assignments ++ row ∷ [] })
  pure row

-- `catch (error)`, where only the code P2002 is turned into an error of its own. What the block
-- has written stays.
abbrev pub on_unique_violation : {A : Type 0} → Error → Action A → Action A
on_unique_violation e m db =
    let (r, db') = m db in
    elim r [
      | ok a ↦ (ok a, db')
      | err x ↦ elim x [ unique_violation ↦ (err e, db') | other ↦ (err other, db') ]
    ]

-- `ensureAdminRoleForBuildingAdminAssignment`
unfoldable pub ensure_admin_role : Uid → AssignmentType → Action (Unit {0})
unfolding find_role_by_key create_user_roles
ensure_admin_role user_id type = if not (type == building_admin) then pure tt else do
  role ← or_throw (← gets (find_role_by_key "admin")) (bad_request "admin role not configured")
  create_user_roles (record { user_id = user_id; role_id = role.id } ∷ [])

-- `BuildingAssignmentsService.create`
unfoldable pub assign_to_building :
    Uid → Option AuthenticatedUser → Uid → Uid → AssignmentType → Action BuildingAssignment
unfolding assert_org_scope find_building find_user create_assignment ensure_admin_role
assign_to_building id user building_id user_id type = do
  org_id ← assert_org_scope user
  or_throw (← gets (find_building building_id org_id)) (not_found "Building not found")
  target ← or_throw (← gets (find_user user_id)) (bad_request "User not in org")
  throw_if (not target.is_active || not (is_in_org org_id target.org_id))
      (bad_request "User not in org")
  on_unique_violation (conflict "Assignment already exists") (do
    assignment ←
        create_assignment
          (record { id = id; building_id = building_id; user_id = target.id; type = type })
    ensure_admin_role target.id type
    pure assignment)
