-- ===== src/Estate/Changes.antt =====
-- The links between units and amenities, when a unit is updated.
mod Steps
use towerdesk_backend.Estate.Changes.Steps.{links_after, store_changes_lem, update_lem}
use towerdesk_backend.Common.{
  ℕ, Bool, true, false, not, ◌&&◌, ◌||◌, Option, none, some, List, [], ◌∷◌, ◌++◌, ◌≡◌, ◌⊎◌, refl,
  sym, ◌∙◌, ◌==◌, nat_eq, map, select, any, every, find, update, UniqueKeys, All, All-map,
  All-append, All-select, any-append, is_empty, is_some, or_default, arith, Option-cases,
  Bool-cases, inl, inr, if◌then◌else◌, ap, subst, find-holds, All-kept,
}
use towerdesk_backend.Store.{
  Uid, Time, UnitRow, Db, ok, err, Action, ◌>>=◌, conflict, ◌>>◌, gets, transaction, Result, Error,
  or_throw, not_found,
}
use towerdesk_backend.Store.Estate.{BuildingAmenity, UnitAmenity}
use towerdesk_backend.Access.{insert_missing}
use towerdesk_backend.Scope.{AuthenticatedUser}
use towerdesk_backend.Org.{find_unit_for_building, on_unique_violation}
use towerdesk_backend.Maintenance.Visibility.{is_ok}
use towerdesk_backend.Estate.Records.{
  create_unit_row, create_links, CreateUnitDto, UpdateUnitDto, same_link, links_of, update_unit_row,
  UnitView, find_unit_with_amenities,
}
use towerdesk_backend.Estate.Units.{
  assert_amenity_ids, store_unit, create_unit, update_unit, get_default_amenity_ids, map_unit_data,
  map_unit_update, require_building, assert_unit_type_in_org, assert_owner_in_org, store_changes,
  assert_new_ids, replace_links, sets_columns,
}
use towerdesk_backend.Estate.Checks.{
  creation_lem, Leaves, behind, Result-cases, assert_amenity_ids-reads, require_building-reads,
  on_unique-Leaves, assert_unit_type-reads, assert_owner-reads, in_transaction,
}
use towerdesk_backend.Estate.Links.{
  LinksInBuilding, in_building, new_links, and_left, any-update, All-implies, All-insert_missing,
}
use towerdesk_backend.Estate.Amenities.{amenity_key, names_amenity, assert_amenity_ids_lem}

-- The update moves no unit.
any-changed :
    (rows : List BuildingAmenity) (l : UnitAmenity) (id : Uid) (dto : UpdateUnitDto)
    (units units' : List UnitRow)
    → (units' ≡ units) ⊎ (units' ≡ update (λ (u : UnitRow). u.id) id (map_unit_update dto) units)
    → any (in_building rows l) units' ≡ any (in_building rows l) units
unfolding map_unit_update
any-changed rows l id dto units units' (inl e) = ap (any (in_building rows l)) e
any-changed rows l id dto units units' (inr e) =
    ap (any (in_building rows l)) e
    ∙ any-update (in_building rows l) id (map_unit_update dto) units (λ x. refl)

-- The links of the update are in the building, if those before are and the new ids have passed.
links_after-All :
    (b id : Uid) (ids : Option (List Uid)) (db : Db)
    → UniqueKeys amenity_key db.building_amenities
    → any (λ x. x.id == id && x.building_id == b) db.units ≡ true
    → is_ok (assert_new_ids b ids db).0 ≡ true
    → LinksInBuilding db
    → All
        (λ l. any (in_building db.building_amenities l) db.units ≡ true)
        (links_after id ids db.unit_amenities)
unfolding links_after assert_new_ids
links_after-All b id none db u stored passed h = h
links_after-All b id (some ids) db u stored passed h =
    let P = λ (l : UnitAmenity). any (in_building db.building_amenities l) db.units ≡ true in
    All-insert_missing P (links_of id ids) (select (λ l. not (l.unit_id == id)) db.unit_amenities)
      (new_links b id db.building_amenities db.units ids stored
        (and_left _ _ (sym (assert_amenity_ids_lem b ids db u) ∙ passed)))
      (All-kept P (λ l. not (l.unit_id == id)) db.unit_amenities h)

any_of_find :
    (p : UnitRow → Bool) (xs : List UnitRow) (x : UnitRow) → find p xs ≡ some x → any p xs ≡ true
unfolding find any
any_of_find p [] x e = cc
any_of_find p (y ∷ xs) x e = ground (arith, any_of_find p xs x)

found_stored :
    (b u : Uid) (unit : UnitRow) (db : Db)
    → find_unit_for_building b u db ≡ some unit
    → any (λ x. x.id == unit.id && x.building_id == b) db.units ≡ true
unfolding find_unit_for_building
found_stored b u unit db e =
    let holds = find-holds (λ x. x.id == u && x.building_id == b) db.units e in
    let same : unit.id ≡ u = ground (arith, holds) in
    subst (λ i. any (λ x. x.id == i && x.building_id == b) db.units ≡ true) (sym same)
      (any_of_find (λ x. x.id == u && x.building_id == b) db.units unit e)

-- What is not there is not changed.
changes_nothing :
    (user : Option AuthenticatedUser) (b u : Uid) (dto : UpdateUnitDto) (db : Db)
    → find_unit_for_building b u db ≡ none
    → (update_unit user b u dto db).1 ≡ db
unfolding update_unit require_building
changes_nothing user b u dto db e = ground (arith, e)

in_changed :
    (id : Uid) (dto : UpdateUnitDto) (db db' : Db)
    → db'.building_amenities ≡ db.building_amenities
    → (db'.units ≡ db.units)
      ⊎ (db'.units ≡ update (λ (u : UnitRow). u.id) id (map_unit_update dto) db.units)
    → db'.unit_amenities ≡ links_after id dto.amenity_ids db.unit_amenities
    → All
        (λ l. any (in_building db.building_amenities l) db.units ≡ true)
        (links_after id dto.amenity_ids db.unit_amenities)
    → LinksInBuilding db'
in_changed id dto db db' a c l h =
    subst (λ links. All (λ l. any (in_building db'.building_amenities l) db'.units ≡ true) links)
      (sym l)
      (All-implies (λ l. any (in_building db.building_amenities l) db.units ≡ true)
        (λ l. any (in_building db'.building_amenities l) db'.units ≡ true)
        (links_after id dto.amenity_ids db.unit_amenities)
        (λ l t.
          ap (λ rows. any (in_building rows l) db'.units) a
          ∙ any-changed db.building_amenities l id dto db.units db'.units c
          ∙ t)
        h)

-- The keys of amenities being unique: if every link is between a unit and an amenity of one
-- building, it is so after a unit is updated, whether that succeeds or throws, and whether the
-- amenities are named or left as they are.
pub update_unit-LinksInBuilding :
    (user : Option AuthenticatedUser) (b u : Uid) (dto : UpdateUnitDto) (db : Db)
    → UniqueKeys amenity_key db.building_amenities
    → LinksInBuilding db
    → LinksInBuilding (update_unit user b u dto db).1
update_unit-LinksInBuilding user b u dto db k h =
    elim (Option-cases (find_unit_for_building b u db)) [
      | inl e ↦ subst LinksInBuilding (sym (changes_nothing user b u dto db e)) h
      | inr (unit, e) ↦ elim (update_lem user b u unit dto db e) [
        | inl same ↦ subst LinksInBuilding (sym same) h
        | inr ((passed, stored), left) ↦
            let (a, c, l) = store_changes_lem unit.id dto db stored in
            subst LinksInBuilding (sym left) (
              in_changed unit.id dto db (store_changes unit.id dto db).1 a c l (
                links_after-All b unit.id dto.amenity_ids db k (found_stored b u unit db e) passed
                  h))
      ]
    ]
