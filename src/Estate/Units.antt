-- ===== src/Estate/Units.antt =====
-- units.service.ts. The id of a new unit and its time are drawn outside.
use towerdesk_backend.Common.{
  ℕ, Bool, false, Option, none, some, List, [], ◌∷◌, map, ◌==◌, nat_eq, ◌&&◌, not, any, find,
  select, includes, is_some, is_empty, length, or_default, if◌then◌else◌,
}
use towerdesk_backend.Store.{
  Uid, Time, UnitDetails, UnitRow, Db, Action, ◌>>=◌, ◌>>◌, pure, gets, or_throw, throw_if,
  transaction, not_found, bad_request, conflict,
}
use towerdesk_backend.Store.Estate.{BuildingAmenity, UnitType, Owner}
use towerdesk_backend.Scope.{AuthenticatedUser, truthy, assert_org_scope, find_building}
use towerdesk_backend.Org.{find_unit_for_building, on_unique_violation}
use towerdesk_backend.Estate.Records.{
  CreateUnitDto, UpdateUnitDto, UnitView, list_by_building_with_availability, count_by_building,
  count_vacant_by_building, find_unit_with_amenities, create_unit_row, update_unit_row,
  create_links, delete_links,
}

-- What every operation of a building starts with.
unfoldable pub require_building : Option AuthenticatedUser → Uid → Action Uid
unfolding assert_org_scope find_building
require_building user building_id = do
  org_id ← assert_org_scope user
  or_throw (← gets (find_building building_id org_id)) (not_found "Building not found")
  pure org_id

-- `assertUnitTypeInOrg`
unfoldable pub assert_unit_type_in_org : Uid → Option Uid → Action (Unit {0})
assert_unit_type_in_org org_id unit_type_id = elim (truthy unit_type_id) [
  | none ↦ pure tt
  | some id ↦ do
    or_throw
        (← gets (λ db. find (λ (t : UnitType). t.id == id && t.org_id == org_id) db.unit_types))
        (not_found "Unit type not found")
    pure tt
]

-- `assertOwnerInOrg`
unfoldable pub assert_owner_in_org : Uid → Option Uid → Action (Unit {0})
assert_owner_in_org org_id owner_id = elim (truthy owner_id) [
  | none ↦ pure tt
  | some id ↦ do
    or_throw (← gets (λ db. find (λ (o : Owner). o.id == id && o.org_id == org_id) db.owners))
        (not_found "Owner not found")
    pure tt
]

abbrev pub is_default_of : Uid → BuildingAmenity → Bool
is_default_of building_id a = a.building_id == building_id && (a.is_active && a.is_default)

-- `getDefaultAmenityIds`
unfoldable pub get_default_amenity_ids : Uid → Db → List Uid
get_default_amenity_ids building_id db =
    map (λ a. a.id) (select (is_default_of building_id) db.building_amenities)

abbrev pub is_choice : Uid → List Uid → BuildingAmenity → Bool
is_choice building_id ids a = a.building_id == building_id && (a.is_active && includes ids a.id)

-- `assertAmenityIds`
unfoldable pub assert_amenity_ids : Uid → List Uid → Action (Unit {0})
assert_amenity_ids building_id ids = if is_empty ids then pure tt else do
  found ← gets (λ db. select (is_choice building_id ids) db.building_amenities)
  throw_if (not (length found == length ids))
      (bad_request "Amenity does not belong to the same building as the unit")

-- `if (dto.amenityIds !== undefined)` it checks them.
unfoldable pub assert_new_ids : Uid → Option (List Uid) → Action (Unit {0})
unfolding assert_amenity_ids
assert_new_ids building_id none = pure tt
assert_new_ids building_id (some ids) = assert_amenity_ids building_id ids

-- `mapUnitData`, and the defaults of the other columns
unfoldable pub map_unit_data : Uid → Time → Uid → CreateUnitDto → UnitRow
map_unit_data id now building_id dto = record {
  id = id;
  building_id = building_id;
  label = dto.label;
  unit_type_id = dto.unit_type_id;
  owner_id = dto.owner_id;
  details = dto.details;
  created_at = now;
}

-- `if (value !== undefined) data.column = value`
abbrev pub or_keep : {A : Type 0} → Option A → Option A → Option A
or_keep none old = old
or_keep (some value) old = some value

-- `connect`, or `disconnect` if the id is falsy
abbrev pub or_disconnect : Option Uid → Option Uid → Option Uid
or_disconnect none old = old
or_disconnect (some id) old = truthy (some id)

unfoldable pub patch_details : UnitDetails → UnitDetails → UnitDetails
patch_details d old = record {
  floor = or_keep d.floor old.floor;
  notes = or_keep d.notes old.notes;
  maintenance_payer = or_keep d.maintenance_payer old.maintenance_payer;
  unit_size = or_keep d.unit_size old.unit_size;
  unit_size_unit = or_keep d.unit_size_unit old.unit_size_unit;
  bedrooms = or_keep d.bedrooms old.bedrooms;
  bathrooms = or_keep d.bathrooms old.bathrooms;
  balcony = or_keep d.balcony old.balcony;
  kitchen_type = or_keep d.kitchen_type old.kitchen_type;
  furnished_status = or_keep d.furnished_status old.furnished_status;
  rent_annual = or_keep d.rent_annual old.rent_annual;
  payment_frequency = or_keep d.payment_frequency old.payment_frequency;
  security_deposit_amount = or_keep d.security_deposit_amount old.security_deposit_amount;
  service_charge_per_unit = or_keep d.service_charge_per_unit old.service_charge_per_unit;
  vat_applicable = or_keep d.vat_applicable old.vat_applicable;
  electricity_meter_number = or_keep d.electricity_meter_number old.electricity_meter_number;
  water_meter_number = or_keep d.water_meter_number old.water_meter_number;
  gas_meter_number = or_keep d.gas_meter_number old.gas_meter_number;
}

-- `mapUnitUpdate`, as what it does to a row
unfoldable pub map_unit_update : UpdateUnitDto → UnitRow → UnitRow
unfolding patch_details
map_unit_update dto u = record u {
  label = elim dto.label [ none ↦ u.label | some label ↦ label ];
  unit_type_id = or_disconnect dto.unit_type_id u.unit_type_id;
  owner_id = or_disconnect dto.owner_id u.owner_id;
  details = patch_details dto.details u.details;
}

abbrev pub sets_details : UnitDetails → Bool
sets_details d =
    any (λ b. b)
      (is_some d.floor
        ∷ is_some d.notes
        ∷ is_some d.maintenance_payer
        ∷ is_some d.unit_size
        ∷ is_some d.unit_size_unit
        ∷ is_some d.bedrooms
        ∷ is_some d.bathrooms
        ∷ is_some d.balcony
        ∷ is_some d.kitchen_type
        ∷ is_some d.furnished_status
        ∷ is_some d.rent_annual
        ∷ is_some d.payment_frequency
        ∷ is_some d.security_deposit_amount
        ∷ is_some d.service_charge_per_unit
        ∷ is_some d.vat_applicable
        ∷ is_some d.electricity_meter_number
        ∷ is_some d.water_meter_number
        ∷ is_some d.gas_meter_number
        ∷ [])

-- `Object.keys(data).length > 0`
unfoldable pub sets_columns : UpdateUnitDto → Bool
sets_columns dto =
    any (λ b. b)
      (is_some dto.label
        ∷ is_some dto.unit_type_id
        ∷ is_some dto.owner_id
        ∷ sets_details dto.details
        ∷ [])

-- The transaction of `create`.
unfoldable pub store_unit : UnitRow → List Uid → Action UnitRow
unfolding create_unit_row create_links
store_unit row ids = do
  unit ← create_unit_row row
  if is_empty ids then pure tt else create_links unit.id ids
  pure unit

-- `UnitsService.create`
unfoldable pub create_unit :
    Uid → Time → Option AuthenticatedUser → Uid → CreateUnitDto → Action UnitRow
unfolding require_building assert_unit_type_in_org assert_owner_in_org get_default_amenity_ids
    assert_amenity_ids store_unit map_unit_data
create_unit id now user building_id dto = do
  org_id ← require_building user building_id
  on_unique_violation (conflict "Unit label already exists") (do
    assert_unit_type_in_org org_id dto.unit_type_id
    assert_owner_in_org org_id dto.owner_id
    defaults ← gets (get_default_amenity_ids building_id)
    let ids = or_default dto.amenity_ids defaults
    assert_amenity_ids building_id ids
    transaction (store_unit (map_unit_data id now building_id dto) ids))

-- `list`
unfoldable pub list_units : Option AuthenticatedUser → Uid → Option Bool → Action (List UnitRow)
unfolding require_building list_by_building_with_availability
list_units user building_id available = do
  require_building user building_id
  gets (list_by_building_with_availability building_id (or_default available false))

-- `findById`
unfoldable pub get_unit : Option AuthenticatedUser → Uid → Uid → Action UnitView
unfolding require_building find_unit_with_amenities
get_unit user building_id unit_id = do
  require_building user building_id
  or_throw (← gets (find_unit_with_amenities building_id unit_id)) (not_found "Unit not found")

-- What is done to the links of the unit.
unfoldable pub replace_links : Uid → Option (List Uid) → Action (Unit {0})
unfolding delete_links create_links
replace_links unit_id none = pure tt
replace_links unit_id (some ids) =
    delete_links unit_id >> (if is_empty ids then pure tt else create_links unit_id ids)

-- The transaction of `update`.
unfoldable pub store_changes : Uid → UpdateUnitDto → Action (Unit {0})
unfolding sets_columns update_unit_row map_unit_update replace_links
store_changes unit_id dto = do
  if sets_columns dto
      then update_unit_row unit_id (map_unit_update dto)
      else (gets (λ db. find (λ (u : UnitRow). u.id == unit_id) db.units) >>= λ row.
          or_throw row (not_found "Unit not found"))
  replace_links unit_id dto.amenity_ids

-- `UnitsService.update`
unfoldable pub update_unit : Option AuthenticatedUser → Uid → Uid → UpdateUnitDto → Action UnitView
unfolding require_building find_unit_for_building assert_unit_type_in_org assert_owner_in_org
    assert_new_ids store_changes find_unit_with_amenities
update_unit user building_id unit_id dto = do
  org_id ← require_building user building_id
  unit ← or_throw (← gets (find_unit_for_building building_id unit_id)) (not_found "Unit not found")
  on_unique_violation (conflict "Unit label already exists") (do
    assert_unit_type_in_org org_id dto.unit_type_id
    assert_owner_in_org org_id dto.owner_id
    assert_new_ids building_id dto.amenity_ids
    transaction (store_changes unit.id dto)
    or_throw (← gets (find_unit_with_amenities building_id unit.id)) (not_found "Unit not found"))

pub record UnitCount : Type 0 where
  pub total : ℕ
  pub vacant : ℕ

-- `countVacant`
unfoldable pub count_vacant : Option AuthenticatedUser → Uid → Action UnitCount
unfolding require_building count_by_building count_vacant_by_building
count_vacant user building_id = do
  require_building user building_id
  total ← gets (count_by_building building_id)
  vacant ← gets (count_vacant_by_building building_id)
  pure (record { total = total; vacant = vacant })
