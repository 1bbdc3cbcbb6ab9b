-- ===== src/Tests/Dwelling.antt =====
-- The theorems on occupancies, residents and the provisioning of users, on the sample.
use towerdesk_backend.Common.{
  true, false, not, none, some, [], ◌∷◌, ◌++◌, ◌≡◌, refl, any, find, select, nat_beq, includes,
  new_set, add, delete, add_all,
}
use towerdesk_backend.Store.{Uid, staff, building_admin, err, bad_request}
use towerdesk_backend.Access.{
  effective_permissions, find_role_by_key, flat_map, linked_permissions, permissions_of_role,
  role_permission_keys, user_overrides, apply_overrides, create_user_roles, insert_missing,
}
use towerdesk_backend.Scope.{find_building, assert_org_scope}
use towerdesk_backend.Org.{
  TextOps, Draws, Grant, ProvisionUserDto, provision, has_users_write, manages, is_grantable,
  CreateResidentDto, assign_to_building, find_user, provision_in_transaction,
  assert_manager_provisioning_allowed, dedupe_assignments, create_target, apply_grants,
  apply_org_roles, apply_building_assignments, ensure_admin_role_for, apply_resident_grant,
  create_user, dedupe_from, target_buildings, upsert_assignment, check_actor, find_and_grant,
  find_or_create,
}
use towerdesk_backend.Org.Vacancy.{KeepsOneActive}
use towerdesk_backend.Org.Vacancy.Provisioning.{provision-KeepsOneActive}
use towerdesk_backend.Org.Privilege.{provision-IsWithinPrivilege}
use towerdesk_backend.Org.Privilege.Targets.{concerns}
use towerdesk_backend.Org.Tenancy.{admin_row, assign_to_building-leaves_row}
use towerdesk_backend.Tests.Sample.{db, manager_user}

abbrev ops : TextOps
ops = record {
  normalize_email = λ e. e;
  same_email = nat_beq;
  trim_key = λ k. k;
  trim = λ t. t;
  hash = λ t. t;
}

abbrev draws : Draws
draws = record {
  user_id = 60;
  assignment_id = λ i. i;
  occupancy_id = 61;
  now = 50;
  temp_password = 65 ∷ [];
}

-- A new staff member of the building.
abbrev dto : ProvisionUserDto
dto = record {
  email = 70;
  name = some (65 ∷ 66 ∷ []);
  password = none;
  send_invite = true;
  org_role_keys = [];
  building_assignments = record { building_id = 5; type = staff } ∷ [];
  resident = none;
  fail_if_exists = true;
  require_same_org = none;
}

abbrev resident_dto : CreateResidentDto
resident_dto = record { name = []; email = 71; phone = none; unit_id = 7; password = none }

provision-KeepsOneActive_example : KeepsOneActive (provision ops draws manager_user dto)
provision-KeepsOneActive_example = provision-KeepsOneActive ops draws manager_user dto

provision-IsWithinPrivilege_example :
    (a : Uid) × (some 1 ≡ some a)
    × ((b : Uid) → concerns dto b ≡ true → manages db a b ≡ true)
    × (any (λ (g : Grant). not (is_grantable g.type)) dto.building_assignments ≡ false)
    × ((provision ops draws manager_user dto db).1.user_roles ≡ db.user_roles)
unfolding provision has_users_write includes new_set provision_in_transaction effective_permissions
    select assert_manager_provisioning_allowed dedupe_assignments any add delete find create_target
    apply_grants apply_org_roles apply_building_assignments ensure_admin_role_for
    apply_resident_grant create_user dedupe_from target_buildings upsert_assignment check_actor
    find_and_grant find_or_create find_building assert_org_scope flat_map linked_permissions
    permissions_of_role role_permission_keys user_overrides apply_overrides add_all
    create_user_roles insert_missing
provision-IsWithinPrivilege_example =
    provision-IsWithinPrivilege ops draws manager_user dto db
      (record {
        user_id = 60;
        created = true;
        linked_existing = false;
        org_role_keys = [];
        building_assignments = record { id = 0; building_id = 5; user_id = 60; type = staff } ∷ [];
        resident = none;
      })
      refl refl

assign_to_building-leaves_row_example : assign_to_building 61 manager_user 5 4 building_admin db ≡ (
  err (bad_request "admin role not configured"),
  record db { assignments = db.assignments ++ admin_row 61 5 4 ∷ [] },
)
unfolding any find find_building find_user find_role_by_key
assign_to_building-leaves_row_example =
    assign_to_building-leaves_row 61 manager_user 5 4 db refl refl refl
