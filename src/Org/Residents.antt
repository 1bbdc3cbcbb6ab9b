-- ===== src/Org/Residents.antt =====
-- residents.service.ts. `hash` is argon2's, and the temporary password is drawn at random.
use towerdesk_backend.Common.{
  true, Option, none, some, List, ◌==◌, nat_eq, string_eq, select, sort_by, is_some, is_empty,
  or_default, if◌then◌else◌,
}
use towerdesk_backend.Store.{
  Uid, Time, Text, User, Occupancy, Action, ◌>>=◌, ◌>>◌, pure, gets, transaction, or_throw,
  throw_if, not_found, bad_request, conflict,
}
use towerdesk_backend.Access.{find_role_by_key}
use towerdesk_backend.Scope.{AuthenticatedUser, assert_org_scope, find_building}
use towerdesk_backend.Org.Directory.{
  find_unit_for_building, find_user_by_email, create_user, create_user_role, find_active_occupancy,
  active_occupancy, create_occupancy,
}
use towerdesk_backend.Org.Occupancies.{later_occupancy}

-- `CreateResidentDto`
pub record CreateResidentDto : Type 0 where
  pub name : Text
  pub email : Uid
  pub phone : Option Text
  pub unit_id : Uid
  pub password : Option Text

-- What `onboard` answers, as far as it is not a copy of the request.
pub record Onboarded : Type 0 where
  pub user_id : Uid
  pub unit_id : Uid
  pub building_id : Uid
  pub temp_password : Option Text

-- `dto.password ? undefined : tempPassword`; an empty password is falsy
abbrev pub shown_password : Option Text → Text → Option Text
shown_password none temp = some temp
shown_password (some p) temp = if is_empty p then some p else none

abbrev pub new_user : (Text → Text) → Uid → Uid → Option Text → Option Text → Text → Uid → User
new_user hash id email name phone password org_id = record {
  id = id;
  email = email;
  password_hash = hash password;
  refresh_token_hash = none;
  name = name;
  avatar_url = none;
  phone = phone;
  org_id = some org_id;
  must_change_password = true;
  is_active = true;
}

module _ (hash : Text → Text) where
  -- `ResidentsService.onboard`, with the ids of the user and of the occupancy
  unfoldable pub onboard :
      Uid
      → Uid
      → Time
      → Text
      → Option AuthenticatedUser
      → Uid
      → CreateResidentDto
      → Action Onboarded
  unfolding assert_org_scope find_building find_unit_for_building find_user_by_email
      find_active_occupancy create_user find_role_by_key create_user_role create_occupancy
  onboard user_id occupancy_id now temp_password user building_id dto = do
    org_id ← assert_org_scope user
    or_throw (← gets (find_building building_id org_id)) (not_found "Building not found")
    unit ←
        or_throw (← gets (find_unit_for_building building_id dto.unit_id))
          (bad_request "Unit not in building")
    existing ← gets (find_user_by_email dto.email)
    throw_if (is_some existing) (conflict "Email already in use")
    let password = or_default dto.password temp_password
    resident ← transaction (do
      occupancy ← gets (find_active_occupancy unit.id)
      throw_if (is_some occupancy) (conflict "Unit is already occupied")
      resident ←
          create_user (new_user hash user_id dto.email (some dto.name) dto.phone password org_id)
      role ← gets (find_role_by_key "resident")
      elim role [
        | none ↦ pure tt
        | some r ↦ create_user_role (record { user_id = resident.id; role_id = r.id })
      ]
      create_occupancy (active_occupancy occupancy_id now building_id unit.id resident.id)
      pure resident)
    pure (record {
      user_id = resident.id;
      unit_id = unit.id;
      building_id = building_id;
      temp_password = shown_password dto.password temp_password;
    })

-- `ResidentsService.list`: ended occupancies too
unfoldable pub list_residents : Option AuthenticatedUser → Uid → Action (List Occupancy)
unfolding assert_org_scope find_building
list_residents user building_id = do
  org_id ← assert_org_scope user
  or_throw (← gets (find_building building_id org_id)) (not_found "Building not found")
  gets (λ db. sort_by later_occupancy (select (λ o. o.building_id == building_id) db.occupancies))
