-- ===== src/Routes/Queries.antt =====
-- Which calls of the building routes write, and who may make them.
use towerdesk_backend.Common.{
  Bool, true, false, Option, some, ◌≡◌, refl, ◌||◌, arith, inl, inr, Option-cases, is_some,
  Bool-cases,
}
use towerdesk_backend.Store.{Uid, Text, Db, building_admin, manager}
use towerdesk_backend.Scope.{
  AuthenticatedUser, sub_of, write, options_of, has_global_permissions, assert_org_scope,
}
use towerdesk_backend.Scope.Levels.{has_assignment}
use towerdesk_backend.Estate.{list_units, count_vacant, get_unit, require_building, list_amenities}
use towerdesk_backend.Org.{list_occupancies, count_active, list_residents}
use towerdesk_backend.Maintenance.{
  perform, list_building_requests, get_building_request, list_building_comments,
}
use towerdesk_backend.Routes.Pipeline.{Decorators, building_metadata, at_building}
use towerdesk_backend.Routes.Buildings.{
  UnitsCall, AmenitiesCall, OccupanciesCall, ResidentsCall, AssignmentsCall, RequestsCall,
  BuildingCall, units, amenities, occupancies, residents, assignments, requests, units_handler,
  amenities_handler, occupancies_handler, residents_handler, requests_handler, decorators, handler,
  answer, units_decorators, amenities_decorators, occupancies_decorators, residents_decorators,
  assignments_decorators,
}
use towerdesk_backend.Routes.Admission.{refusal, answer_lem}

-- The handlers of `GET`.
abbrev pub is_units_query : UnitsCall → Bool
is_units_query (UnitsCall.create _ _ _) = false
is_units_query (UnitsCall.update _ _) = false
is_units_query _ = true

abbrev pub is_requests_query : RequestsCall → Bool
is_requests_query (RequestsCall.list _) = true
is_requests_query (RequestsCall.get_by_id _) = true
is_requests_query (RequestsCall.list_comments _) = true
is_requests_query _ = false

abbrev pub is_query : BuildingCall → Bool
is_query (units c) = is_units_query c
is_query (amenities AmenitiesCall.list) = true
is_query (occupancies OccupanciesCall.list) = true
is_query (occupancies OccupanciesCall.count) = true
is_query (residents ResidentsCall.list) = true
is_query (requests c) = is_requests_query c
is_query _ = false

units_keep :
    (user : Option AuthenticatedUser) (b : Uid) (call : UnitsCall) (db : Db)
    → is_units_query call ≡ true
    → (units_handler user b call db).1 ≡ db
unfolding units_handler list_units count_vacant get_unit require_building
units_keep user b (UnitsCall.list available) db h = ground arith
units_keep user b UnitsCall.list_basic db h = ground arith
units_keep user b UnitsCall.count db h = ground arith
units_keep user b (UnitsCall.get_by_id unit_id) db h = ground arith
units_keep user b (UnitsCall.create id now dto) db h = cc
units_keep user b (UnitsCall.update unit_id dto) db h = cc

requests_keep :
    (user : Option AuthenticatedUser) (b : Uid) (call : RequestsCall) (db : Db)
    → is_requests_query call ≡ true
    → (requests_handler user b call db).1 ≡ db
unfolding requests_handler perform list_building_requests get_building_request
    list_building_comments
requests_keep user b (RequestsCall.list status) db h = ground arith
requests_keep user b (RequestsCall.get_by_id r) db h = ground arith
requests_keep user b (RequestsCall.list_comments r) db h = ground arith
requests_keep user b (RequestsCall.assign now r staff) db h = cc
requests_keep user b (RequestsCall.update_status now r status) db h = cc
requests_keep user b (RequestsCall.cancel now r) db h = cc
requests_keep user b (RequestsCall.add_comment id now r message) db h = cc
requests_keep user b (RequestsCall.add_attachments r attachments) db h = cc

handler_keeps :
    (hash : Text → Text) (user : Option AuthenticatedUser) (b : Uid) (call : BuildingCall) (db : Db)
    → is_query call ≡ true
    → (handler hash user b call db).1 ≡ db
unfolding amenities_handler occupancies_handler residents_handler list_amenities list_occupancies
    count_active list_residents require_building assert_org_scope
handler_keeps hash user b (units c) db h = units_keep user b c db h
handler_keeps hash user b (requests c) db h = requests_keep user b c db h
handler_keeps hash user b (amenities AmenitiesCall.list) db h = ground arith
handler_keeps hash user b (amenities (AmenitiesCall.create _ _ _)) db h = cc
handler_keeps hash user b (amenities (AmenitiesCall.update _ _)) db h = cc
handler_keeps hash user b (occupancies OccupanciesCall.list) db h = ground arith
handler_keeps hash user b (occupancies OccupanciesCall.count) db h = ground arith
handler_keeps hash user b (occupancies (OccupanciesCall.create _ _ _ _)) db h = cc
handler_keeps hash user b (residents ResidentsCall.list) db h = ground arith
handler_keeps hash user b (residents (ResidentsCall.create _ _ _ _ _)) db h = cc
handler_keeps hash user b (assignments c) db h = cc

-- A call of a `GET` route of a building writes nothing, whoever makes it.
pub answer_keeps :
    (hash : Text → Text) (user : Option AuthenticatedUser) (b : Uid) (call : BuildingCall) (db : Db)
    → is_query call ≡ true
    → (answer hash user b call db).1 ≡ db
answer_keeps hash user b call db h =
    rw (answer_lem hash user b call db) (elim (Option-cases (refusal (decorators call) db user b)) [
      | inl r ↦ rw r (handler_keeps hash user b call db h)
      | inr (e, r) ↦ rw r refl
    ])

-- The calls of the controller of the maintenance requests.
abbrev pub is_of_requests : BuildingCall → Bool
is_of_requests (requests c) = true
is_of_requests _ = false

-- The user runs the building: as its admin, as its manager, or by a permission that a role gives.
abbrev pub runs : Decorators → Db → Option AuthenticatedUser → Uid → Uid → Bool
runs d db user b user_id =
    has_global_permissions db user_id
      (options_of d.level (building_metadata d) (at_building user b))
    || (has_assignment db b user_id building_admin || has_assignment db b user_id manager)

refused :
    (d : Decorators) (db : Db) (user : Option AuthenticatedUser) (b user_id : Uid)
    → sub_of user ≡ some user_id
    → d.level ≡ write
    → runs d db user b user_id ≡ false
    → is_some (refusal d db user b) ≡ true
refused d db user b user_id s l r = ground arith

other_level :
    (call : BuildingCall)
    → is_of_requests call ≡ false
    → is_query call ≡ false
    → (decorators call).level ≡ write
unfolding units_decorators amenities_decorators occupancies_decorators residents_decorators
    assignments_decorators
other_level (requests c) r h = cc
other_level (units (UnitsCall.create _ _ _)) r h = refl
other_level (units (UnitsCall.update _ _)) r h = refl
other_level (units (UnitsCall.list _)) r h = cc
other_level (units UnitsCall.list_basic) r h = cc
other_level (units UnitsCall.count) r h = cc
other_level (units (UnitsCall.get_by_id _)) r h = cc
other_level (amenities AmenitiesCall.list) r h = cc
other_level (amenities (AmenitiesCall.create _ _ _)) r h = refl
other_level (amenities (AmenitiesCall.update _ _)) r h = refl
other_level (occupancies OccupanciesCall.list) r h = cc
other_level (occupancies OccupanciesCall.count) r h = cc
other_level (occupancies (OccupanciesCall.create _ _ _ _)) r h = refl
other_level (residents ResidentsCall.list) r h = cc
other_level (residents (ResidentsCall.create _ _ _ _ _)) r h = refl
other_level (assignments (AssignmentsCall.create _ _ _)) r h = refl

-- Outside of the maintenance requests, a call of a building route by a user writes nothing unless
-- the user is an admin or a manager of that building, or holds the permission of the route.
pub answer_keeps-runs :
    (hash : Text → Text) (user : Option AuthenticatedUser) (b : Uid) (call : BuildingCall) (db : Db)
    (user_id : Uid)
    → sub_of user ≡ some user_id
    → is_of_requests call ≡ false
    → runs (decorators call) db user b user_id ≡ false
    → (answer hash user b call db).1 ≡ db
answer_keeps-runs hash user b call db user_id s o r = elim (Bool-cases (is_query call)) [
  | inl q ↦ answer_keeps hash user b call db q
  | inr q ↦ ground (
    arith,
    answer_lem hash user b call db,
    refused (decorators call) db user b user_id s (other_level call o q) r,
  )
]
