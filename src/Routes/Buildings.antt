-- ===== src/Routes/Buildings.antt =====
-- The controllers below `org/buildings/:buildingId`: units, building-amenities, occupancies,
-- residents, building-assignments and maintenance-requests (building-requests.controller.ts).
use towerdesk_backend.Common.{Bool, true, false, Option, none, List}
use towerdesk_backend.Store.{Uid, Time, Text, Status, AssignmentType, Action}
use towerdesk_backend.Scope.{AuthenticatedUser, read, write}
use towerdesk_backend.Estate.{
  CreateUnitDto, UpdateUnitDto, CreateBuildingAmenityDto, UpdateBuildingAmenityDto, create_unit,
  list_units, count_vacant, get_unit, update_unit, list_amenities, create_amenity, update_amenity,
}
use towerdesk_backend.Org.{
  CreateResidentDto, create_occupancy_for, list_occupancies, count_active, onboard, list_residents,
  assign_to_building,
}
use towerdesk_backend.Maintenance.{AttachmentDto, Call, perform, done}
use towerdesk_backend.Routes.Pipeline.{Decorators, decorated, building_route, at_building, serve}

-- A call carries what the body and the query hold, and what the database and the clock draw.
pub data UnitsCall : Type 0 where
  create : Uid → Time → CreateUnitDto → UnitsCall
  list : Option Bool → UnitsCall
  list_basic count : UnitsCall
  get_by_id : Uid → UnitsCall
  update : Uid → UpdateUnitDto → UnitsCall

pub data AmenitiesCall : Type 0 where
  list : AmenitiesCall
  create : Uid → Time → CreateBuildingAmenityDto → AmenitiesCall
  update : Uid → UpdateBuildingAmenityDto → AmenitiesCall

pub data OccupanciesCall : Type 0 where
  create : Uid → Time → Uid → Uid → OccupanciesCall
  list count : OccupanciesCall

pub data ResidentsCall : Type 0 where
  create : Uid → Uid → Time → Text → CreateResidentDto → ResidentsCall
  list : ResidentsCall

pub data AssignmentsCall : Type 0 where
  create : Uid → Uid → AssignmentType → AssignmentsCall

pub data RequestsCall : Type 0 where
  list : Option Status → RequestsCall
  get_by_id : Uid → RequestsCall
  assign : Time → Uid → Uid → RequestsCall
  update_status : Time → Uid → Status → RequestsCall
  cancel : Time → Uid → RequestsCall
  add_comment : Uid → Time → Uid → Text → RequestsCall
  list_comments : Uid → RequestsCall
  add_attachments : Uid → List AttachmentDto → RequestsCall

pub data BuildingCall : Type 0 where
  units : UnitsCall → BuildingCall
  amenities : AmenitiesCall → BuildingCall
  occupancies : OccupanciesCall → BuildingCall
  residents : ResidentsCall → BuildingCall
  assignments : AssignmentsCall → BuildingCall
  requests : RequestsCall → BuildingCall

unfoldable pub units_decorators : UnitsCall → Decorators
units_decorators (UnitsCall.create _ _ _) = decorated write true "units.write"
units_decorators (UnitsCall.list _) = decorated read false "units.read"
units_decorators UnitsCall.list_basic = decorated read true "units.read"
units_decorators UnitsCall.count = decorated read false "units.read"
units_decorators (UnitsCall.get_by_id _) = decorated read false "units.read"
units_decorators (UnitsCall.update _ _) = decorated write true "units.write"

unfoldable pub amenities_decorators : AmenitiesCall → Decorators
amenities_decorators AmenitiesCall.list = decorated read false "buildings.read"
amenities_decorators (AmenitiesCall.create _ _ _) = decorated write true "buildings.write"
amenities_decorators (AmenitiesCall.update _ _) = decorated write true "buildings.write"

unfoldable pub occupancies_decorators : OccupanciesCall → Decorators
occupancies_decorators (OccupanciesCall.create _ _ _ _) = decorated write false "occupancy.write"
occupancies_decorators OccupanciesCall.list = decorated read false "occupancy.read"
occupancies_decorators OccupanciesCall.count = decorated read false "occupancy.read"

unfoldable pub residents_decorators : ResidentsCall → Decorators
residents_decorators (ResidentsCall.create _ _ _ _ _) = decorated write true "residents.write"
residents_decorators ResidentsCall.list = decorated read false "residents.read"

unfoldable pub assignments_decorators : AssignmentsCall → Decorators
assignments_decorators (AssignmentsCall.create _ _ _) =
    decorated write true "building.assignments.write"

unfoldable pub requests_decorators : RequestsCall → Decorators
requests_decorators (RequestsCall.list _) = decorated read false "requests.read"
requests_decorators (RequestsCall.get_by_id _) = decorated read false "requests.read"
requests_decorators (RequestsCall.assign _ _ _) = decorated write true "requests.assign"
requests_decorators (RequestsCall.update_status _ _ _) =
    decorated read false "requests.update_status"
requests_decorators (RequestsCall.cancel _ _) = decorated read false "requests.update_status"
requests_decorators (RequestsCall.add_comment _ _ _ _) = decorated read false "requests.comment"
requests_decorators (RequestsCall.list_comments _) = decorated read false "requests.comment"
requests_decorators (RequestsCall.add_attachments _ _) = decorated read false "requests.comment"

abbrev pub decorators : BuildingCall → Decorators
decorators (units c) = units_decorators c
decorators (amenities c) = amenities_decorators c
decorators (occupancies c) = occupancies_decorators c
decorators (residents c) = residents_decorators c
decorators (assignments c) = assignments_decorators c
decorators (requests c) = requests_decorators c

unfoldable pub units_handler : Option AuthenticatedUser → Uid → UnitsCall → Action (Unit {0})
units_handler user b (UnitsCall.create id now dto) = done (create_unit id now user b dto)
units_handler user b (UnitsCall.list available) = done (list_units user b available)
units_handler user b UnitsCall.list_basic = done (list_units user b none)
units_handler user b UnitsCall.count = done (count_vacant user b)
units_handler user b (UnitsCall.get_by_id unit_id) = done (get_unit user b unit_id)
units_handler user b (UnitsCall.update unit_id dto) = done (update_unit user b unit_id dto)

unfoldable pub amenities_handler :
    Option AuthenticatedUser → Uid → AmenitiesCall → Action (Unit {0})
amenities_handler user b AmenitiesCall.list = done (list_amenities user b)
amenities_handler user b (AmenitiesCall.create id now dto) = done (create_amenity id now user b dto)
amenities_handler user b (AmenitiesCall.update amenity_id dto) =
    done (update_amenity user b amenity_id dto)

unfoldable pub occupancies_handler :
    Option AuthenticatedUser → Uid → OccupanciesCall → Action (Unit {0})
occupancies_handler user b (OccupanciesCall.create id now unit_id resident_user_id) =
    done (create_occupancy_for id now user b unit_id resident_user_id)
occupancies_handler user b OccupanciesCall.list = done (list_occupancies user b)
occupancies_handler user b OccupanciesCall.count = done (count_active user b)

unfoldable pub assignments_handler :
    Option AuthenticatedUser → Uid → AssignmentsCall → Action (Unit {0})
assignments_handler user b (AssignmentsCall.create id user_id type) =
    done (assign_to_building id user b user_id type)

unfoldable pub requests_handler : Option AuthenticatedUser → Uid → RequestsCall → Action (Unit {0})
unfolding perform
requests_handler user b (RequestsCall.list status) = perform user (Call.list_building b status)
requests_handler user b (RequestsCall.get_by_id r) = perform user (Call.get_building b r)
requests_handler user b (RequestsCall.assign now r staff) = perform user (Call.assign now b r staff)
requests_handler user b (RequestsCall.update_status now r status) =
    perform user (Call.set_status now b r status)
requests_handler user b (RequestsCall.cancel now r) = perform user (Call.cancel_building now b r)
requests_handler user b (RequestsCall.add_comment id now r message) =
    perform user (Call.comment_building id now b r message)
requests_handler user b (RequestsCall.list_comments r) = perform user (Call.comments_building b r)
requests_handler user b (RequestsCall.add_attachments r attachments) =
    perform user (Call.attach_building b r attachments)

module _ (hash : Text → Text) where
  unfoldable pub residents_handler :
      Option AuthenticatedUser → Uid → ResidentsCall → Action (Unit {0})
  residents_handler user b (ResidentsCall.create user_id occupancy_id now temp dto) =
      done (onboard hash user_id occupancy_id now temp user b dto)
  residents_handler user b ResidentsCall.list = done (list_residents user b)

  abbrev pub handler : Option AuthenticatedUser → Uid → BuildingCall → Action (Unit {0})
  handler user b (units c) = units_handler user b c
  handler user b (amenities c) = amenities_handler user b c
  handler user b (occupancies c) = occupancies_handler user b c
  handler user b (residents c) = residents_handler user b c
  handler user b (assignments c) = assignments_handler user b c
  handler user b (requests c) = requests_handler user b c

  -- A call of a route of a building, as the application answers it.
  unfoldable pub answer : Option AuthenticatedUser → Uid → BuildingCall → Action (Unit {0})
  unfolding serve
  answer user b call =
      serve (building_route (decorators call)) (at_building user b) (λ user. handler user b call)
