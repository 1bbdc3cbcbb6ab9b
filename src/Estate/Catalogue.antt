-- ===== src/Estate/Catalogue.antt =====
-- building-amenities, unit-types and owners: their services and repositories.
use towerdesk_backend.Common.{
  Bool, true, false, Option, none, some, List, [], ◌∷◌, ◌++◌, ◌==◌, nat_eq, text_eq, ◌&&◌, ◌||◌,
  not, any, find, select, update, leb, sort_by, or_default, is_empty,
}
use towerdesk_backend.Store.{
  Uid, Time, Text, Db, Action, ◌>>=◌, ◌>>◌, pure, gets, modify, or_throw, throw_if,
  unique_violation, record_not_found, not_found, conflict,
}
use towerdesk_backend.Store.Estate.{BuildingAmenity, UnitType, Owner}
use towerdesk_backend.Scope.{AuthenticatedUser, assert_org_scope}
use towerdesk_backend.Org.{on_unique_violation}
use towerdesk_backend.Estate.Units.{require_building}

pub record CreateBuildingAmenityDto : Type 0 where
  pub name : Text
  pub is_default : Option Bool
  pub is_active : Option Bool

pub record UpdateBuildingAmenityDto : Type 0 where
  pub name : Option Text
  pub is_default : Option Bool
  pub is_active : Option Bool

abbrev pub later_amenity : BuildingAmenity → BuildingAmenity → Bool
later_amenity a b = leb b.created_at a.created_at

-- `BuildingAmenitiesService.list`
unfoldable pub list_amenities : Option AuthenticatedUser → Uid → Action (List BuildingAmenity)
unfolding require_building
list_amenities user building_id = do
  require_building user building_id
  gets (λ db.
      sort_by later_amenity (select (λ a. a.building_id == building_id) db.building_amenities))

abbrev pub same_amenity : Uid → Text → BuildingAmenity → Bool
same_amenity building_id name a = a.building_id == building_id && a.name == name

-- `BuildingAmenitiesRepo.create`: the name is unique in the building.
unfoldable pub create_amenity_row :
    Uid → Time → Uid → CreateBuildingAmenityDto → Action BuildingAmenity
create_amenity_row id now building_id dto = do
  throw_if (any (same_amenity building_id dto.name) (← gets (λ db. db.building_amenities)))
      unique_violation
  let row : BuildingAmenity = record {
    id = id;
    building_id = building_id;
    name = dto.name;
    is_active = or_default dto.is_active true;
    is_default = or_default dto.is_default false;
    created_at = now;
  }
  modify (λ db. record db { building_amenities = db.building_amenities ++ row ∷ [] })
  pure row

-- `BuildingAmenitiesService.create`
unfoldable pub create_amenity :
    Uid → Time → Option AuthenticatedUser → Uid → CreateBuildingAmenityDto → Action BuildingAmenity
unfolding require_building create_amenity_row
create_amenity id now user building_id dto = do
  require_building user building_id
  on_unique_violation (conflict "Amenity already exists")
      (create_amenity_row id now building_id dto)

unfoldable pub find_amenity_for_building : Uid → Uid → Db → Option BuildingAmenity
find_amenity_for_building building_id amenity_id db =
    find (λ a. a.id == amenity_id && a.building_id == building_id) db.building_amenities

abbrev pub patch_amenity : UpdateBuildingAmenityDto → BuildingAmenity → BuildingAmenity
patch_amenity dto a = record a {
  name = or_default dto.name a.name;
  is_default = or_default dto.is_default a.is_default;
  is_active = or_default dto.is_active a.is_active;
}

-- `BuildingAmenitiesRepo.update`
unfoldable pub update_amenity_row : Uid → UpdateBuildingAmenityDto → Action BuildingAmenity
update_amenity_row id dto = do
  row ←
      or_throw (← gets (λ db. find (λ (a : BuildingAmenity). a.id == id) db.building_amenities))
        record_not_found
  let new = patch_amenity dto row
  throw_if
      (any (λ a. not (a.id == id) && same_amenity new.building_id new.name a)
        (← gets (λ db. db.building_amenities)))
      unique_violation
  modify (λ db. record db {
    building_amenities =
        update (λ (a : BuildingAmenity). a.id) id (patch_amenity dto) db.building_amenities;
  })
  pure new

-- `BuildingAmenitiesService.update`; it does not catch the violation of the unique name.
unfoldable pub update_amenity :
    Option AuthenticatedUser → Uid → Uid → UpdateBuildingAmenityDto → Action BuildingAmenity
unfolding require_building find_amenity_for_building update_amenity_row
update_amenity user building_id amenity_id dto = do
  require_building user building_id
  or_throw (← gets (find_amenity_for_building building_id amenity_id))
      (not_found "Amenity not found")
  update_amenity_row amenity_id dto

pub record CreateUnitTypeDto : Type 0 where
  pub name : Text
  pub is_active : Option Bool

abbrev pub later_type : UnitType → UnitType → Bool
later_type a b = leb b.created_at a.created_at

-- `UnitTypesService.listActive`
unfoldable pub list_active_unit_types : Option AuthenticatedUser → Action (List UnitType)
unfolding assert_org_scope
list_active_unit_types user = do
  org_id ← assert_org_scope user
  gets (λ db. sort_by later_type (select (λ t. t.org_id == org_id && t.is_active) db.unit_types))

-- `UnitTypesRepo.create`: the name is unique in the organisation.
unfoldable pub create_unit_type_row : Uid → Time → Uid → CreateUnitTypeDto → Action UnitType
create_unit_type_row id now org_id dto = do
  throw_if
      (any (λ (t : UnitType). t.org_id == org_id && t.name == dto.name)
        (← gets (λ db. db.unit_types)))
      unique_violation
  let row : UnitType = record {
    id = id;
    org_id = org_id;
    name = dto.name;
    is_active = or_default dto.is_active true;
    created_at = now;
  }
  modify (λ db. record db { unit_types = db.unit_types ++ row ∷ [] })
  pure row

-- `UnitTypesService.create`
unfoldable pub create_unit_type :
    Uid → Time → Option AuthenticatedUser → CreateUnitTypeDto → Action UnitType
unfolding assert_org_scope create_unit_type_row
create_unit_type id now user dto = do
  org_id ← assert_org_scope user
  on_unique_violation (conflict "Unit type already exists") (create_unit_type_row id now org_id dto)

pub record CreateOwnerDto : Type 0 where
  pub name : Text
  pub email : Option Text
  pub phone : Option Text
  pub address : Option Text

abbrev pub later_owner : Owner → Owner → Bool
later_owner a b = leb b.created_at a.created_at

-- `{ contains: search, mode: 'insensitive' }`, where `contains` is the database's.
abbrev pub column_contains : (Text → Text → Bool) → Option Text → Text → Bool
column_contains contains none search = false
column_contains contains (some value) search = contains value search

abbrev pub owner_matches : (Text → Text → Bool) → Option Text → Owner → Bool
owner_matches contains none o = true
owner_matches contains (some search) o =
    is_empty search
    || (contains o.name search
        || (column_contains contains o.email search
            || (column_contains contains o.phone search
                || column_contains contains o.address search)))

-- `OwnersService.list`
unfoldable pub list_owners :
    (Text → Text → Bool) → Option AuthenticatedUser → Option Text → Action (List Owner)
unfolding assert_org_scope
list_owners contains user search = do
  org_id ← assert_org_scope user
  gets (λ db.
      sort_by later_owner
        (select (λ o. o.org_id == org_id && owner_matches contains search o) db.owners))

-- `OwnersService.create`
unfoldable pub create_owner : Uid → Time → Option AuthenticatedUser → CreateOwnerDto → Action Owner
unfolding assert_org_scope
create_owner id now user dto = do
  org_id ← assert_org_scope user
  let row : Owner = record {
    id = id;
    org_id = org_id;
    name = dto.name;
    email = dto.email;
    phone = dto.phone;
    address = dto.address;
    created_at = now;
  }
  modify (λ db. record db { owners = db.owners ++ row ∷ [] })
  pure row
