-- ===== src/Org/Provision/Steps.antt =====
-- users/org-users-provision.service.ts: the user who is found or created, and the grants.
use towerdesk_backend.Common.{
  ℕ, Bool, true, false, String, Option, none, some, List, [], ◌∷◌, ◌++◌, map, ◌==◌, nat_eq,
  string_eq, ◌&&◌, not, any, find, select, includes, update, length, ltb, is_some, is_empty,
  or_default, if◌then◌else◌, ◌+◌,
}
use towerdesk_backend.Store.{
  Uid, Text, building_admin, type_eq, is_active_status, ended, User, BuildingAssignment, Occupancy,
  Role, UserRole, Action, ◌>>=◌, ◌>>◌, pure, gets, modify, or_throw, throw_if, throw, not_found,
  bad_request, conflict,
}
use towerdesk_backend.Access.{find_role_by_key, create_user_roles}
use towerdesk_backend.Scope.{truthy, find_building}
use towerdesk_backend.Org.Directory.{
  find_unit_for_building, create_user, occupies, find_active_occupancy, active_occupancy,
  create_occupancy,
}
use towerdesk_backend.Org.Occupancies.{is_in_org}
use towerdesk_backend.Org.Residents.{new_user}
use towerdesk_backend.Org.Assignments.{same_assignment}
use towerdesk_backend.Org.Provision.Request.{Grant, ResidentGrant, ProvisionUserDto, TextOps, Draws}

-- `!dto.identity.password`
abbrev pub is_blank_password : Option Text → Bool
is_blank_password none = true
is_blank_password (some p) = is_empty p

abbrev pub is_foreign_stay : Uid → Option Occupancy → Bool
is_foreign_stay user_id none = false
is_foreign_stay user_id (some o) = not (o.resident_user_id == user_id)

abbrev pub is_own_stay : Uid → Option Occupancy → Bool
is_own_stay user_id none = false
is_own_stay user_id (some o) = o.resident_user_id == user_id

-- `tx.user.update({ where: { id }, data: { orgId } })`
unfoldable pub move_to_org : Uid → User → Action User
move_to_org org_id target = do
  modify (λ db. record db {
    users = update (λ (u : User). u.id) target.id (λ u. record u { org_id = some org_id }) db.users;
  })
  pure (record target { org_id = some org_id })

module _ (ops : TextOps) (draws : Draws) where
  -- The branch for a user who exists; the user is returned as it is then.
  unfoldable pub link_existing : Uid → Bool → Bool → User → Action User
  unfolding move_to_org
  link_existing org_id fail_if_exists require_same_org target = do
    throw_if fail_if_exists (conflict "Email already in use")
    linked ←
        if is_in_org org_id target.org_id
        then pure target
        else if not (is_some (truthy target.org_id)) && not require_same_org
        then move_to_org org_id target
        else throw (bad_request "User not in org")
    throw_if (not (is_some (truthy linked.org_id))) (bad_request "User not in org")
    throw_if (not linked.is_active) (bad_request "User not active")
    pure linked

  -- The branch for a new user.
  unfoldable pub create_target : Uid → Uid → ProvisionUserDto → Action User
  unfolding create_user
  create_target org_id email dto = do
    let name : Text = elim dto.name [ none ↦ [] | some n ↦ ops.trim n ]
    throw_if (ltb (length name) 2) (bad_request "Name required")
    throw_if (is_blank_password dto.password && not dto.send_invite)
        (bad_request "Password or sendInvite required")
    create_user (
        new_user ops.hash draws.user_id email (some name) none
          (or_default dto.password draws.temp_password) org_id)

  -- `applyOrgRoles`
  unfoldable pub apply_org_roles : Uid → List String → Action (List String)
  unfolding create_user_roles
  apply_org_roles user_id role_keys = if is_empty role_keys then pure [] else do
    roles ← gets (λ db. select (λ r. includes role_keys r.key) db.roles)
    throw_if (any (λ key. not (any (λ (r : Role). r.key == key) roles)) role_keys)
        (bad_request "Unknown role keys")
    create_user_roles (
        map (λ (r : Role). let row : UserRole = record { user_id = user_id; role_id = r.id } in row)
          roles)
    pure (map (λ (r : Role). r.key) roles)

  -- `buildingAssignment.upsert`: the update writes the type that the row has.
  unfoldable pub upsert_assignment : BuildingAssignment → Action BuildingAssignment
  upsert_assignment row = do
    existing ← gets (λ db. find (same_assignment row) db.assignments)
    elim existing [
      | some a ↦ pure a
      | none ↦ do modify (λ db. record db { assignments = db.assignments ++ row ∷ [] }); pure row
    ]

  -- `applyBuildingAssignments`, from the `i`th drawn id on
  unfoldable pub apply_building_assignments :
      Uid → Uid → ℕ → List Grant → Action (List BuildingAssignment)
  unfolding find_building upsert_assignment
  apply_building_assignments org_id user_id i [] = pure []
  apply_building_assignments org_id user_id i (g ∷ gs) = do
    or_throw (← gets (find_building g.building_id org_id)) (not_found "Building not found")
    a ← upsert_assignment (record {
      id = draws.assignment_id i;
      building_id = g.building_id;
      user_id = user_id;
      type = g.type;
    })
    rest ← apply_building_assignments org_id user_id (i + 1) gs
    pure (a ∷ rest)

  -- `ensureAdminRoleForBuildingAdmins`
  unfoldable pub ensure_admin_role_for : Uid → List Grant → Action (Unit {0})
  unfolding find_role_by_key create_user_roles
  ensure_admin_role_for user_id grants =
      if not (any (λ (g : Grant). g.type == building_admin) grants) then pure tt else do
        role ←
            or_throw (← gets (find_role_by_key "admin")) (bad_request "admin role not configured")
        create_user_roles (record { user_id = user_id; role_id = role.id } ∷ [])

  abbrev pub end_other_stays : Uid → ResidentGrant → Uid → Occupancy → Occupancy
  end_other_stays user_id g unit_id o =
      if o.resident_user_id == user_id
        && (o.building_id == g.building_id
            && (is_active_status o.status && not (o.unit_id == unit_id)))
      then record o { status = ended; end_at = some draws.now }
      else o

  -- `applyResidentGrant`
  unfoldable pub apply_resident_grant : Uid → Uid → Option ResidentGrant → Action (Option Occupancy)
  unfolding find_building find_unit_for_building find_active_occupancy create_occupancy
  apply_resident_grant org_id user_id none = pure none
  apply_resident_grant org_id user_id (some g) = do
    or_throw (← gets (find_building g.building_id org_id)) (not_found "Building not found")
    unit ←
        or_throw (← gets (find_unit_for_building g.building_id g.unit_id))
          (bad_request "Unit not in building")
    existing_for_unit ← gets (find_active_occupancy unit.id)
    throw_if (is_foreign_stay user_id existing_for_unit) (conflict "Unit is already occupied")
    found ←
        gets (λ db. find (λ o. occupies unit.id o && o.resident_user_id == user_id) db.occupancies)
    let existing_for_user_unit =
        if is_own_stay user_id existing_for_unit then existing_for_unit else found
    modify (λ db. record db {
      occupancies =
          if g.is_move
          then map (end_other_stays user_id g unit.id) db.occupancies
          else db.occupancies;
    })
    elim existing_for_user_unit [
      | some o ↦ pure (some o)
      | none ↦ do
        o ←
            create_occupancy
              (active_occupancy draws.occupancy_id draws.now g.building_id unit.id user_id)
        pure (some o)
    ]
