-- ===== src/Estate/Records.antt =====
-- units.repo.ts, and the queries and writes of units.service.ts.
use towerdesk_backend.Common.{
  ℕ, Bool, false, Option, none, some, List, [], ◌∷◌, ◌++◌, map, ◌==◌, nat_eq, text_eq, ◌&&◌, ◌||◌,
  not, any, find, select, update, leb, length, sort_by,
}
use towerdesk_backend.Store.{
  Uid, Text, UnitDetails, UnitRow, Db, Action, ◌>>=◌, ◌>>◌, pure, gets, modify, or_throw, throw_if,
  unique_violation, foreign_key_violation, record_not_found,
}
use towerdesk_backend.Store.Estate.{BuildingAmenity, UnitAmenity, UnitType, Owner}
use towerdesk_backend.Access.{insert_missing}
use towerdesk_backend.Org.{occupies}

-- `CreateUnitDto`; `details` are the columns that nothing tests.
pub record CreateUnitDto : Type 0 where
  pub label : Text
  pub unit_type_id : Option Uid
  pub owner_id : Option Uid
  pub details : UnitDetails
  pub amenity_ids : Option (List Uid)

-- `UpdateUnitDto`: what is absent is `undefined`.
pub record UpdateUnitDto : Type 0 where
  pub label : Option Text
  pub unit_type_id : Option Uid
  pub owner_id : Option Uid
  pub details : UnitDetails
  pub amenity_ids : Option (List Uid)

abbrev pub later_unit : UnitRow → UnitRow → Bool
later_unit a b = leb b.created_at a.created_at

-- `occupancies: { none: { status: 'ACTIVE' } }`
unfoldable pub has_no_active_occupancy : Db → UnitRow → Bool
has_no_active_occupancy db u = not (any (occupies u.id) db.occupancies)

abbrev pub is_offered : Db → Uid → Bool → UnitRow → Bool
is_offered db building_id available_only u =
    u.building_id == building_id && (not available_only || has_no_active_occupancy db u)

-- `listByBuildingWithAvailability`
unfoldable pub list_by_building_with_availability : Uid → Bool → Db → List UnitRow
list_by_building_with_availability building_id available_only db =
    sort_by later_unit (select (is_offered db building_id available_only) db.units)

-- `countByBuilding`
unfoldable pub count_by_building : Uid → Db → ℕ
count_by_building building_id db = length (select (λ u. u.building_id == building_id) db.units)

-- `countVacantByBuilding`
unfoldable pub count_vacant_by_building : Uid → Db → ℕ
unfolding has_no_active_occupancy
count_vacant_by_building building_id db =
    length (select (λ u. u.building_id == building_id && has_no_active_occupancy db u) db.units)

-- A unit with the amenities that its links name.
pub record UnitView : Type 0 where
  pub unit : UnitRow
  pub amenities : List BuildingAmenity

abbrev pub linked : Uid → Db → BuildingAmenity → Bool
linked unit_id db a = any (λ l. l.unit_id == unit_id && l.amenity_id == a.id) db.unit_amenities

-- `findByIdForBuildingWithAmenities`
unfoldable pub find_unit_with_amenities : Uid → Uid → Db → Option UnitView
find_unit_with_amenities building_id unit_id db =
    elim (find (λ u. u.id == unit_id && u.building_id == building_id) db.units) [
      | none ↦ none
      | some u ↦
          some (record { unit = u; amenities = select (linked u.id db) db.building_amenities })
    ]

abbrev pub same_label : Uid → Text → UnitRow → Bool
same_label building_id label u = u.building_id == building_id && u.label == label

-- A reference that is set must name a row.
abbrev pub dangles : Option Uid → (Uid → Bool) → Bool
dangles none exists = false
dangles (some id) exists = not (exists id)

abbrev pub has_unit_type : Db → Uid → Bool
has_unit_type db id = any (λ (t : UnitType). t.id == id) db.unit_types

abbrev pub has_owner : Db → Uid → Bool
has_owner db id = any (λ (o : Owner). o.id == id) db.owners

-- `tx.unit.create`: the label is unique in the building, and the references have targets.
unfoldable pub create_unit_row : UnitRow → Action UnitRow
create_unit_row row = do
  throw_if (any (same_label row.building_id row.label) (← gets (λ db. db.units))) unique_violation
  throw_if (dangles row.unit_type_id (← gets has_unit_type)) foreign_key_violation
  throw_if (dangles row.owner_id (← gets has_owner)) foreign_key_violation
  modify (λ db. record db { units = db.units ++ row ∷ [] })
  pure row

-- `tx.unit.update`
unfoldable pub update_unit_row : Uid → (UnitRow → UnitRow) → Action UnitRow
update_unit_row id patch = do
  row ← or_throw (← gets (λ db. find (λ (u : UnitRow). u.id == id) db.units)) record_not_found
  throw_if
      (any (λ u. not (u.id == id) && same_label (patch row).building_id (patch row).label u)
        (← gets (λ db. db.units)))
      unique_violation
  modify (λ db. record db { units = update (λ (u : UnitRow). u.id) id patch db.units })
  pure (patch row)

abbrev pub same_link : UnitAmenity → UnitAmenity → Bool
same_link a b = a.unit_id == b.unit_id && a.amenity_id == b.amenity_id

abbrev pub links_of : Uid → List Uid → List UnitAmenity
links_of unit_id ids = map (λ id. record { unit_id = unit_id; amenity_id = id }) ids

-- `tx.unitAmenity.createMany` with `skipDuplicates`: the pair is the primary key.
unfoldable pub create_links : Uid → List Uid → Action (Unit {0})
unfolding insert_missing
create_links unit_id ids = modify (λ db. record db {
  unit_amenities = insert_missing same_link (links_of unit_id ids) db.unit_amenities;
})

-- `tx.unitAmenity.deleteMany`
unfoldable pub delete_links : Uid → Action (Unit {0})
delete_links unit_id = modify (λ db. record db {
  unit_amenities = select (λ l. not (l.unit_id == unit_id)) db.unit_amenities;
})
