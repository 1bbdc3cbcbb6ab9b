-- ===== src/Routes/Assigned.antt =====
-- The buildings that a user is shown, and those that the user may look at.
use towerdesk_backend.Common.{
  Bool, false, Option, some, List, [], ◌∷◌, ◌++◌, ◌≡◌, ◌==◌, nat_eq, ◌&&◌, ◌||◌, any, any-select,
  any-sort_by, any-append, select, arith,
}
use towerdesk_backend.Store.{Uid, Time, Building, Db, Result, ok, err, type_eq}
use towerdesk_backend.Scope.{AuthenticatedUser, org_of}
use towerdesk_backend.Estate.{
  CreateBuildingDto, create_building, list_buildings, later_building, building_row,
}

-- A building with the id is listed.
abbrev pub shows_building : Uid → Result (List Building) → Bool
shows_building building_id (ok rows) = any (λ (b : Building). b.id == building_id) rows
shows_building building_id (err _) = false

-- After a building is created, a list of buildings shows what it showed before, and the new
-- building to the organisation of its creator alone.
pub list_buildings-create_building :
    (id : Uid) (now : Time) (creator viewer : Option AuthenticatedUser) (dto : CreateBuildingDto)
    (shown creator_org viewer_org : Uid) (db : Db)
    → org_of creator ≡ some creator_org
    → org_of viewer ≡ some viewer_org
    → shows_building shown (list_buildings viewer (create_building id now creator dto db).1).0 ≡ (
        shows_building shown (list_buildings viewer db).0
        || (id == shown && creator_org == viewer_org))
unfolding list_buildings create_building building_row any
list_buildings-create_building id now creator viewer dto shown creator_org viewer_org db c v =
    let p = λ (b : Building). b.org_id == viewer_org in
    let q = λ (b : Building). b.id == shown in
    let row = building_row id now creator_org dto in
    ground (
      arith,
      any-sort_by later_building q (select p (db.buildings ++ row ∷ [])),
      any-sort_by later_building q (select p db.buildings),
      any-select p q (db.buildings ++ row ∷ []),
      any-select p q db.buildings,
      any-append (λ b. p b && q b) db.buildings (row ∷ []),
    )
