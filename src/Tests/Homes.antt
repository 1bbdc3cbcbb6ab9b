-- ===== src/Tests/Homes.antt =====
-- The theorems on units, on a building with three amenities.
use towerdesk_backend.Common.{
  Bool, true, false, none, some, [], ◌∷◌, ◌≡◌, refl, any, find, UniqueKeys, arith,
}
use towerdesk_backend.Store.{Uid, Db}
use towerdesk_backend.Store.Estate.{BuildingAmenity}
use towerdesk_backend.Org.{create_occupancy_for, find_user}
use towerdesk_backend.Org.Tenancy.{is_member}
use towerdesk_backend.Maintenance.Visibility.{is_ok}
use towerdesk_backend.Estate.{UpdateUnitDto, update_unit, CreateUnitDto, create_unit, list_units}
use towerdesk_backend.Estate.Amenities.{amenity_key}
use towerdesk_backend.Estate.Vacancies.{shows_unit, list_units-create_occupancy_for}
use towerdesk_backend.Estate.Links.{LinksInBuilding, create_unit-LinksInBuilding}
use towerdesk_backend.Estate.Changes.{update_unit-LinksInBuilding}
use towerdesk_backend.Tests.Sample.{db, no_details, manager_user}

abbrev amenity : Uid → Bool → BuildingAmenity
amenity id is_default = record {
  id = id;
  building_id = 5;
  name = id ∷ [];
  is_active = true;
  is_default = is_default;
  created_at = id;
}

-- The unit 6 has the amenity 80.
abbrev homes : Db
homes = record db {
  building_amenities = amenity 80 true ∷ amenity 81 false ∷ amenity 82 true ∷ [];
  unit_amenities = record { unit_id = 6; amenity_id = 80 } ∷ [];
}

unique_amenities : UniqueKeys amenity_key homes.building_amenities
unfolding any
unique_amenities = ground arith

abbrev unit_dto : CreateUnitDto
unit_dto = record {
  label = 3 ∷ [];
  unit_type_id = none;
  owner_id = none;
  details = no_details;
  amenity_ids = none;
}

links_before : LinksInBuilding homes
unfolding any
links_before = (refl, tt)

create_unit-LinksInBuilding_example :
    LinksInBuilding (create_unit 60 50 manager_user 5 unit_dto homes).1
create_unit-LinksInBuilding_example =
    create_unit-LinksInBuilding 60 50 manager_user 5 unit_dto homes unique_amenities links_before

-- A new label, and another amenity.
abbrev change_dto : UpdateUnitDto
change_dto = record {
  label = some (4 ∷ []);
  unit_type_id = none;
  owner_id = none;
  details = no_details;
  amenity_ids = some (81 ∷ []);
}

update_unit-LinksInBuilding_example :
    LinksInBuilding (update_unit manager_user 5 6 change_dto homes).1
update_unit-LinksInBuilding_example =
    update_unit-LinksInBuilding manager_user 5 6 change_dto homes unique_amenities links_before

resident_there : is_member 9 db 4 ≡ true
unfolding find find_user
resident_there = refl

list_units-create_occupancy_for_example :
    shows_unit 7 (list_units manager_user 5 (some true) db).0
    ≡ is_ok (create_occupancy_for 60 50 manager_user 5 7 4 db).0
list_units-create_occupancy_for_example =
    list_units-create_occupancy_for 60 50 manager_user 5 7 4 9 db refl resident_there
