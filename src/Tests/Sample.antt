-- ===== src/Tests/Sample.antt =====
-- A small organisation: a manager, a staff member and two residents; a building with two units.
use towerdesk_backend.Common.{true, false, Option, none, some, [], ◌∷◌}
use towerdesk_backend.Store.{
  Uid, Status, Building, open_, assigned, completed, manager, staff, active, deny, User,
  MaintenanceRequest, Db, UnitDetails, UnitRow,
}
use towerdesk_backend.Scope.{AuthenticatedUser}

abbrev pub user_row : Uid → User
user_row id = record {
  id = id;
  email = id;
  password_hash = [];
  refresh_token_hash = none;
  name = none;
  avatar_url = none;
  phone = none;
  org_id = some 9;
  must_change_password = false;
  is_active = true;
}

abbrev pub request_row : Uid → Status → Option Uid → MaintenanceRequest
request_row id status assignee = record {
  id = id;
  org_id = 9;
  building_id = 5;
  unit_id = some 6;
  created_by_user_id = 3;
  title = 84 ∷ 97 ∷ 112 ∷ [];
  description = none;
  status = status;
  type = none;
  priority = none;
  assigned_to_user_id = assignee;
  assigned_at = none;
  completed_at = none;
  canceled_at = none;
  created_at = id;
}

abbrev pub no_details : UnitDetails
no_details = record {
  floor = none;
  notes = none;
  maintenance_payer = none;
  unit_size = none;
  unit_size_unit = none;
  bedrooms = none;
  bathrooms = none;
  balcony = none;
  kitchen_type = none;
  furnished_status = none;
  rent_annual = none;
  payment_frequency = none;
  security_deposit_amount = none;
  service_charge_per_unit = none;
  vat_applicable = none;
  electricity_meter_number = none;
  water_meter_number = none;
  gas_meter_number = none;
}

abbrev pub unit_row : Uid → UnitRow
unit_row id = record {
  id = id;
  building_id = 5;
  label = id ∷ [];
  unit_type_id = none;
  owner_id = none;
  details = no_details;
  created_at = id;
}

abbrev pub building_row : Building
building_row = record {
  id = 5;
  org_id = 9;
  profile = record {
    name = 65 ∷ [];
    city = 66 ∷ [];
    emirate = none;
    country = 67 ∷ [];
    timezone = 68 ∷ [];
    floors = none;
    units_count = none;
    created_at = 1;
  };
}

abbrev pub db : Db
db = record {
  users = user_row 1 ∷ user_row 2 ∷ user_row 3 ∷ user_row 4 ∷ [];
  buildings = building_row ∷ [];
  units = unit_row 6 ∷ unit_row 7 ∷ [];
  assignments =
      record { id = 11; building_id = 5; user_id = 1; type = manager }
      ∷ record { id = 12; building_id = 5; user_id = 2; type = staff }
      ∷ [];
  occupancies =
      record {
        id = 13;
        building_id = 5;
        unit_id = 6;
        resident_user_id = 3;
        status = active;
        end_at = none;
        created_at = 1;
      }
      ∷ [];
  requests =
      request_row 20 open_ none
      ∷ request_row 21 completed (some 2)
      ∷ request_row 22 assigned (some 2)
      ∷ [];
  comments = [];
  attachments = [];
  roles =
      record { id = 31; key = "org_manager"; name = []; description = none; is_system = true } ∷ [];
  permissions =
      record { id = 40; key = "requests.read" } ∷ record { id = 41; key = "units.read" } ∷ [];
  role_permissions =
      record { role_id = 31; permission_id = 40 }
      ∷ record { role_id = 31; permission_id = 41 }
      ∷ [];
  user_roles = record { user_id = 1; role_id = 31 } ∷ [];
  user_permissions = record { user_id = 1; permission_id = 41; effect = deny } ∷ [];
  events = [];
  orgs = [];
  building_amenities = [];
  unit_amenities = [];
  unit_types = [];
  owners = [];
  notifications = [];
  has_server = true;
  published = [];
}

abbrev pub manager_user : Option AuthenticatedUser
manager_user = some (record { sub = 1; org_id = some 9 })

abbrev pub staff_user : Option AuthenticatedUser
staff_user = some (record { sub = 2; org_id = some 9 })

abbrev pub resident_user : Option AuthenticatedUser
resident_user = some (record { sub = 3; org_id = some 9 })
