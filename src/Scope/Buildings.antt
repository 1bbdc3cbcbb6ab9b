-- ===== src/Scope/Buildings.antt =====
-- common/building-access/building-access.service.ts.
use towerdesk_backend.Common.{
  Bool, true, false, String, Option, none, some, List, [], ◌∷◌, ◌==◌, nat_eq, not, ◌&&◌, any, every,
  find, select, has, string_eq, is_empty, is_some, or_default, if◌then◌else◌,
}
use towerdesk_backend.Store.{
  Uid, AssignmentType, manager, staff, building_admin, type_eq, is_active_status, Building,
  BuildingAssignment, Db, Action, ◌>>=◌, ◌>>◌, pure, gets, or_throw, throw_if, forbidden, not_found,
}
use towerdesk_backend.Access.{effective_permissions}
use towerdesk_backend.Scope.User.{AuthenticatedUser, is_truthy, sub_of, assert_org_scope}

-- `AccessOptions`: an option that is absent reads as `[]` or `false`.
pub record AccessOptions : Type 0 where
  pub required_permissions : List String
  pub allow_resident : Bool
  pub effective_permissions : Option (List String)
  pub allow_manager_write : Bool

abbrev pub assignment_priority : List AssignmentType
assignment_priority = building_admin ∷ manager ∷ staff ∷ []

unfoldable pub find_building : Uid → Uid → Db → Option Building
find_building building_id org_id db =
    find (λ b. b.id == building_id && b.org_id == org_id) db.buildings

-- `assertBuildingInOrg`
unfoldable pub assert_building_in_org : Uid → Uid → Action Building
unfolding find_building
assert_building_in_org building_id org_id = do
  throw_if (not (is_truthy org_id)) (forbidden "Org scope required")
  or_throw (← gets (find_building building_id org_id)) (not_found "Building not found")

-- The loop over `assignmentPriority`.
unfoldable pub first_type : List AssignmentType → List BuildingAssignment → Option AssignmentType
first_type [] assignments = none
first_type (type ∷ types) assignments =
    if any (λ a. a.type == type) assignments then some type else first_type types assignments

-- `getBuildingAssignmentType`
unfoldable pub get_building_assignment_type : Db → Uid → Uid → Option AssignmentType
unfolding first_type
get_building_assignment_type db building_id user_id =
    let assignments =
      select (λ a. a.building_id == building_id && a.user_id == user_id) db.assignments in
    if is_empty assignments then none else first_type assignment_priority assignments

-- `hasActiveOccupancy`
unfoldable pub has_active_occupancy : Db → Uid → Uid → Bool
has_active_occupancy db building_id user_id = is_some (
    find
      (λ o.
        o.building_id == building_id
        && (o.resident_user_id == user_id && is_active_status o.status))
      db.occupancies)

-- `hasGlobalPermissions`
unfoldable pub has_global_permissions : Db → Uid → AccessOptions → Bool
has_global_permissions db user_id options =
    if is_empty options.required_permissions
    then false
    else every (has (or_default options.effective_permissions (effective_permissions db user_id)))
        options.required_permissions

-- The decision of `canReadBuildingResource`, once the building is known to be in the organisation.
unfoldable pub may_read : Db → Uid → Uid → AccessOptions → Bool
unfolding has_global_permissions get_building_assignment_type has_active_occupancy
may_read db building_id user_id options =
    if has_global_permissions db user_id options
    then true
    else if is_some (get_building_assignment_type db building_id user_id)
    then true
    else if options.allow_resident
    then has_active_occupancy db building_id user_id
    else false

abbrev pub is_type : AssignmentType → Option AssignmentType → Bool
is_type type none = false
is_type type (some t) = t == type

-- The decision of `canWriteBuildingResource`, likewise.
unfoldable pub may_write : Db → Uid → Uid → AccessOptions → Bool
unfolding has_global_permissions get_building_assignment_type
may_write db building_id user_id options =
    if has_global_permissions db user_id options
    then true
    else let assignment = get_building_assignment_type db building_id user_id in
      if is_type building_admin assignment
      then true
      else options.allow_manager_write && is_type manager assignment

-- `canReadBuildingResource`
unfoldable pub can_read_building_resource :
    Option AuthenticatedUser → Uid → AccessOptions → Action Bool
unfolding assert_org_scope assert_building_in_org may_read
can_read_building_resource user building_id options = do
  org_id ← assert_org_scope user
  assert_building_in_org building_id org_id
  elim (sub_of user) [
    | none ↦ pure false
    | some user_id ↦ gets (λ db. may_read db building_id user_id options)
  ]

-- `canWriteBuildingResource`
unfoldable pub can_write_building_resource :
    Option AuthenticatedUser → Uid → AccessOptions → Action Bool
unfolding assert_org_scope assert_building_in_org may_write
can_write_building_resource user building_id options = do
  org_id ← assert_org_scope user
  assert_building_in_org building_id org_id
  elim (sub_of user) [
    | none ↦ pure false
    | some user_id ↦ gets (λ db. may_write db building_id user_id options)
  ]
