-- ===== src/Estate/Buildings.antt =====
-- src/modules/buildings: buildings.service.ts and buildings.repo.ts.
use towerdesk_backend.Common.{
  ℕ, Bool, Option, none, some, List, [], ◌∷◌, ◌++◌, ◌==◌, nat_eq, ◌&&◌, any, select, leb, codes,
  trim, sort_by, or_default,
}
use towerdesk_backend.Store.{
  Uid, Time, Text, Building, BuildingAssignment, Action, ◌>>=◌, ◌>>◌, pure, gets, modify, or_throw,
  not_found,
}
use towerdesk_backend.Scope.{AuthenticatedUser, assert_org_scope, require_user_id, find_building}

pub record CreateBuildingDto : Type 0 where
  pub name : Text
  pub city : Text
  pub emirate : Option Text
  pub country : Option Text
  pub timezone : Option Text
  pub floors : Option ℕ
  pub units_count : Option ℕ

abbrev pub trimmed : Option Text → Option Text
trimmed none = none
trimmed (some text) = some (trim text)

-- `BuildingsRepo.create`, of what the service trims, with its defaults
unfoldable pub building_row : Uid → Time → Uid → CreateBuildingDto → Building
building_row id now org_id dto = record {
  id = id;
  org_id = org_id;
  profile = record {
    name = trim dto.name;
    city = trim dto.city;
    emirate = trimmed dto.emirate;
    country = or_default (trimmed dto.country) (codes "ARE");
    timezone = or_default (trimmed dto.timezone) (codes "Asia/Dubai");
    floors = dto.floors;
    units_count = dto.units_count;
    created_at = now;
  };
}

-- `create`
unfoldable pub create_building :
    Uid → Time → Option AuthenticatedUser → CreateBuildingDto → Action Building
unfolding assert_org_scope building_row
create_building id now user dto = do
  org_id ← assert_org_scope user
  let row = building_row id now org_id dto
  modify (λ db. record db { buildings = db.buildings ++ row ∷ [] })
  pure row

abbrev pub later_building : Building → Building → Bool
later_building a b = leb b.profile.created_at a.profile.created_at

-- `list`
unfoldable pub list_buildings : Option AuthenticatedUser → Action (List Building)
unfolding assert_org_scope
list_buildings user = do
  org_id ← assert_org_scope user
  gets (λ db. sort_by later_building (select (λ (b : Building). b.org_id == org_id) db.buildings))

-- `assignments: { some: { userId } }`
abbrev pub is_assigned : List BuildingAssignment → Uid → Building → Bool
is_assigned assignments user_id b =
    any (λ (a : BuildingAssignment). a.building_id == b.id && a.user_id == user_id) assignments

-- `listAssigned`
unfoldable pub list_assigned : Option AuthenticatedUser → Action (List Building)
unfolding assert_org_scope require_user_id
list_assigned user = do
  org_id ← assert_org_scope user
  user_id ← require_user_id user
  gets (λ db. sort_by later_building (
      select (λ (b : Building). b.org_id == org_id && is_assigned db.assignments user_id b)
        db.buildings))

-- `getById`
unfoldable pub get_building : Option AuthenticatedUser → Uid → Action Building
unfolding assert_org_scope find_building
get_building user building_id = do
  org_id ← assert_org_scope user
  found ← gets (find_building building_id org_id)
  or_throw found (not_found "Building not found")
