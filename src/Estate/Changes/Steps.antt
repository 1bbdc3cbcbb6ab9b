-- ===== src/Estate/Changes/Steps.antt =====
-- What an update leaves, step by step.
use towerdesk_backend.Common.{
  true, not, Option, none, some, List, [], ◌∷◌, ◌≡◌, ◌⊎◌, refl, ◌∙◌, ◌==◌, nat_eq, select, find,
  update, arith, Bool-cases, inl, inr, if◌then◌else◌, ap,
}
use towerdesk_backend.Store.{
  Uid, UnitRow, Db, Action, ◌>>=◌, conflict, ◌>>◌, gets, transaction, or_throw, not_found,
}
use towerdesk_backend.Store.Estate.{UnitAmenity}
use towerdesk_backend.Access.{insert_missing}
use towerdesk_backend.Scope.{AuthenticatedUser}
use towerdesk_backend.Org.{find_unit_for_building, on_unique_violation}
use towerdesk_backend.Maintenance.Visibility.{is_ok}
use towerdesk_backend.Estate.Records.{
  UpdateUnitDto, same_link, links_of, update_unit_row, UnitView, find_unit_with_amenities,
}
use towerdesk_backend.Estate.Units.{
  update_unit, map_unit_update, require_building, assert_unit_type_in_org, assert_owner_in_org,
  store_changes, assert_new_ids, replace_links, sets_columns,
}
use towerdesk_backend.Estate.Checks.{
  Leaves, behind, Result-cases, assert_amenity_ids-reads, require_building-reads, on_unique-Leaves,
  assert_unit_type-reads, assert_owner-reads, in_transaction,
}

unfoldable pub links_after : Uid → Option (List Uid) → List UnitAmenity → List UnitAmenity
links_after id none rows = rows
links_after id (some ids) rows =
    insert_missing same_link (links_of id ids) (select (λ l. not (l.unit_id == id)) rows)

pub update_row_lem :
    (id : Uid) (patch : UnitRow → UnitRow) (db : Db)
    → ((update_unit_row id patch db).1 ≡ db)
      ⊎ ((update_unit_row id patch db).1
          ≡ record db { units = update (λ (u : UnitRow). u.id) id patch db.units })
unfolding update_unit_row
update_row_lem id patch db = elim (Bool-cases (is_ok (update_unit_row id patch db).0)) [
  | inl done ↦ inr (ground arith)
  | inr failed ↦ inl (ground arith)
]

pub replace_lem :
    (id : Uid) (ids : Option (List Uid)) (db : Db)
    → (replace_links id ids db).1
      ≡ record db { unit_amenities = links_after id ids db.unit_amenities }
unfolding replace_links links_after insert_missing
replace_lem id none db = refl
replace_lem id (some []) db = refl
replace_lem id (some (i ∷ ids)) db = refl

-- The columns of `update`.
abbrev pub change_columns : Uid → UpdateUnitDto → Action UnitRow
change_columns id dto =
    if sets_columns dto
    then update_unit_row id (map_unit_update dto)
    else (gets (λ db. find (λ (u : UnitRow). u.id == id) db.units) >>= λ row.
        or_throw row (not_found "Unit not found"))

pub change_columns_lem :
    (id : Uid) (dto : UpdateUnitDto) (db : Db)
    → ((change_columns id dto db).1 ≡ db)
      ⊎ ((change_columns id dto db).1
          ≡ record db { units = update (λ (u : UnitRow). u.id) id (map_unit_update dto) db.units })
change_columns_lem id dto db = elim (Bool-cases (sets_columns dto)) [
  | inl e ↦ rw e (update_row_lem id (map_unit_update dto) db)
  | inr e ↦ rw e (inl (ground arith))
]

-- If both of two calls return, the second has run behind the first.
pub both_done :
    {A B : Type 0} (m : Action A) (k : Action B) (db : Db)
    → is_ok ((m >> k) db).0 ≡ true
    → ((m >> k) db).1 ≡ (k (m db).1).1
both_done m k db h = elim (Result-cases (m db).0) [
  | inl (a, e) ↦ ground (arith, e)
  | inr (x, e) ↦ ground (arith, e)
]

pub store_changes_lem :
    (id : Uid) (dto : UpdateUnitDto) (db : Db)
    → is_ok (store_changes id dto db).0 ≡ true
    → let db' = (store_changes id dto db).1 in
      (db'.building_amenities ≡ db.building_amenities)
      × ((db'.units ≡ db.units)
          ⊎ (db'.units ≡ update (λ (u : UnitRow). u.id) id (map_unit_update dto) db.units))
      × (db'.unit_amenities ≡ links_after id dto.amenity_ids db.unit_amenities)
unfolding store_changes
store_changes_lem id dto db h =
    let e = both_done (change_columns id dto) (replace_links id dto.amenity_ids) db h in
    let left = e ∙ replace_lem id dto.amenity_ids (change_columns id dto db).1 in
    elim (change_columns_lem id dto db) [
      | inl c ↦ (
        ap (λ d. d.building_amenities) (left) ∙ ap (λ d. d.building_amenities) c,
        inl (ap (λ d. d.units) left ∙ ap (λ d. d.units) c),
        ap (λ d. d.unit_amenities) left
            ∙ ap (λ d. links_after id dto.amenity_ids d.unit_amenities) c,
      )
      | inr c ↦ (
        ap (λ d. d.building_amenities) left ∙ ap (λ d. d.building_amenities) c,
        inr (ap (λ d. d.units) left ∙ ap (λ d. d.units) c),
        ap (λ d. d.unit_amenities) left
            ∙ ap (λ d. links_after id dto.amenity_ids d.unit_amenities) c,
      )
    ]

pub assert_new_ids-reads :
    (b : Uid) (ids : Option (List Uid)) (db : Db) → (assert_new_ids b ids db).1 ≡ db
unfolding assert_new_ids
assert_new_ids-reads b none db = refl
assert_new_ids-reads b (some ids) db = assert_amenity_ids-reads b ids db

-- What only reads adds nothing behind.
pub then_reads :
    {A B : Type 0} (m : Action A) (k : Action B) (P : Type 0) (db after : Db)
    → ((d : Db) → (k d).1 ≡ d)
    → Leaves db m P after
    → Leaves db (m >> k) P after
then_reads m k P db after h l = elim (Result-cases (m db).0) [
  | inl (a, e) ↦ ground (arith, e, h (m db).1, l)
  | inr (x, e) ↦ ground (arith, e, l)
]

-- The calls of `update`, from the last checks on.
abbrev pub shown : Uid → Uid → Action UnitView
shown b id =
    gets (find_unit_with_amenities b id) >>= λ view. or_throw view (not_found "Unit not found")

abbrev pub changed_ids : Uid → Uid → UpdateUnitDto → Action UnitView
changed_ids b id dto =
    assert_new_ids b dto.amenity_ids >> (transaction (store_changes id dto) >> shown b id)

abbrev pub changed_owner : Uid → Uid → Uid → UpdateUnitDto → Action UnitView
changed_owner o b id dto = assert_owner_in_org o dto.owner_id >> changed_ids b id dto

abbrev pub changed_type : Uid → Uid → Uid → UpdateUnitDto → Action UnitView
changed_type o b id dto = assert_unit_type_in_org o dto.unit_type_id >> changed_owner o b id dto

abbrev pub changed_unit : Uid → Uid → UpdateUnitDto → Option UnitRow → Action UnitView
changed_unit o b dto found = or_throw found (not_found "Unit not found") >>= λ unit.
    on_unique_violation (conflict "Unit label already exists") (changed_type o b unit.id dto)

pub update_lem :
    (user : Option AuthenticatedUser) (b u : Uid) (unit : UnitRow) (dto : UpdateUnitDto) (db : Db)
    → find_unit_for_building b u db ≡ some unit
    → Leaves db
        (update_unit user b u dto)
        ((is_ok (assert_new_ids b dto.amenity_ids db).0 ≡ true)
          × (is_ok (store_changes unit.id dto db).0 ≡ true))
        (store_changes unit.id dto db).1
unfolding update_unit
update_lem user b u unit dto db e =
    let P =
      (is_ok (assert_new_ids b dto.amenity_ids db).0 ≡ true)
      × (is_ok (store_changes unit.id dto db).0 ≡ true) in
    let written = (store_changes unit.id dto db).1 in
    behind (require_building user b)
      (λ o. gets (find_unit_for_building b u) >>= changed_unit o b dto) P db written
      (require_building-reads user b db)
      (λ o _. rw e (
        on_unique-Leaves (conflict "Unit label already exists") (changed_type o b unit.id dto) P db
          written
          (behind (assert_unit_type_in_org o dto.unit_type_id) (λ _. changed_owner o b unit.id dto)
            P db written (assert_unit_type-reads o dto.unit_type_id db)
            (λ _ _.
              behind (assert_owner_in_org o dto.owner_id) (λ _. changed_ids b unit.id dto) P db
                written (assert_owner-reads o dto.owner_id db)
                (λ _ _.
                  behind (assert_new_ids b dto.amenity_ids)
                    (λ _. transaction (store_changes unit.id dto) >> shown b unit.id) P db written
                    (assert_new_ids-reads b dto.amenity_ids db)
                    (λ _ passed.
                      then_reads (transaction (store_changes unit.id dto)) (shown b unit.id) P db
                        written (λ d. ground arith)
                        (elim (in_transaction (store_changes unit.id dto) db) [
                          | inl same ↦ inl same
                          | inr (stored, left) ↦ inr ((ap is_ok passed, stored), left)
                        ])))))))
