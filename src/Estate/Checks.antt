-- ===== src/Estate/Checks.antt =====
-- The checks of units, which write nothing, and what comes behind them.
use towerdesk_backend.Common.{
  true, Option, List, ◌≡◌, ◌⊎◌, refl, nat_eq, or_default, arith, inl, inr, ap,
}
use towerdesk_backend.Store.{
  Uid, UnitRow, Db, ok, err, Action, ◌>>=◌, conflict, ◌>>◌, gets, transaction, Result, Error,
}
use towerdesk_backend.Scope.{AuthenticatedUser}
use towerdesk_backend.Org.{on_unique_violation}
use towerdesk_backend.Maintenance.Visibility.{is_ok}
use towerdesk_backend.Estate.Records.{CreateUnitDto}
use towerdesk_backend.Estate.Units.{
  assert_amenity_ids, get_default_amenity_ids, require_building, assert_unit_type_in_org,
  assert_owner_in_org,
}

pub Result-cases :
    {A : Type 0} (r : Result A) → ((a : A) × (r ≡ ok a)) ⊎ ((x : Error) × (r ≡ err x))
Result-cases (ok a) = inl (a, refl)
Result-cases (err x) = inr (x, refl)

-- A creation that writes `m`, after the checks of `create`, from the last one on.
abbrev pub checked_ids : Uid → CreateUnitDto → (List Uid → Action UnitRow) → Action UnitRow
checked_ids b dto m = gets (get_default_amenity_ids b) >>= λ defaults.
    (assert_amenity_ids b (or_default dto.amenity_ids defaults)
      >> transaction (m (or_default dto.amenity_ids defaults)))

abbrev pub checked_owner : Uid → Uid → CreateUnitDto → (List Uid → Action UnitRow) → Action UnitRow
checked_owner o b dto m = assert_owner_in_org o dto.owner_id >> checked_ids b dto m

abbrev pub checked_type : Uid → Uid → CreateUnitDto → (List Uid → Action UnitRow) → Action UnitRow
checked_type o b dto m = assert_unit_type_in_org o dto.unit_type_id >> checked_owner o b dto m

abbrev pub creation :
    Option AuthenticatedUser → Uid → CreateUnitDto → (List Uid → Action UnitRow) → Action UnitRow
creation user b dto m = require_building user b >>= λ o.
    on_unique_violation (conflict "Unit label already exists") (checked_type o b dto m)

-- The call leaves the database as it was, or else `P` holds and it leaves `after`.
abbrev pub Leaves : {A : Type 0} → Db → Action A → Type 0 → Db → Type 0
Leaves db m P after = ((m db).1 ≡ db) ⊎ (P × ((m db).1 ≡ after))

-- A check that writes nothing comes first.
pub behind :
    {A B : Type 0} (check : Action A) (k : A → Action B) (P : Type 0) (db after : Db)
    → (check db).1 ≡ db
    → ((a : A) → (check db).0 ≡ ok a → Leaves db (k a) P after)
    → Leaves db (check >>= k) P after
behind check k P db after h f = elim (Result-cases (check db).0) [
  | inr (x, e) ↦ inl (ground (arith, e, h))
  | inl (a, e) ↦ ground (arith, e, h, f a e)
]

pub in_transaction :
    {A : Type 0} (m : Action A) (db : Db)
    → Leaves db (transaction m) (is_ok (m db).0 ≡ true) (m db).1
in_transaction m db = elim (Result-cases (m db).0) [
  | inr (x, e) ↦ inl (ground (arith, e))
  | inl (a, e) ↦ inr (ground (arith, e), ground (arith, e))
]

pub on_unique-Leaves :
    {A : Type 0} (e : Error) (m : Action A) (P : Type 0) (db after : Db)
    → Leaves db m P after
    → Leaves db (on_unique_violation e m) P after
on_unique-Leaves e m P db after h = ground (arith, h)

pub require_building-reads :
    (user : Option AuthenticatedUser) (b : Uid) (db : Db) → (require_building user b db).1 ≡ db
unfolding require_building
require_building-reads user b db = ground arith

pub assert_unit_type-reads :
    (o : Uid) (t : Option Uid) (db : Db) → (assert_unit_type_in_org o t db).1 ≡ db
unfolding assert_unit_type_in_org
assert_unit_type-reads o t db = ground arith

pub assert_owner-reads : (o : Uid) (t : Option Uid) (db : Db) → (assert_owner_in_org o t db).1 ≡ db
unfolding assert_owner_in_org
assert_owner-reads o t db = ground arith

pub assert_amenity_ids-reads :
    (b : Uid) (ids : List Uid) (db : Db) → (assert_amenity_ids b ids db).1 ≡ db
unfolding assert_amenity_ids
assert_amenity_ids-reads b ids db = ground arith

-- It fails and leaves all as it was, or the ids have passed and all is as `m` leaves it.
pub creation_lem :
    (user : Option AuthenticatedUser) (b : Uid) (dto : CreateUnitDto)
    (m : List Uid → Action UnitRow) (db : Db)
    → let ids = or_default dto.amenity_ids (get_default_amenity_ids b db) in
      Leaves db
        (creation user b dto m)
        ((is_ok (assert_amenity_ids b ids db).0 ≡ true) × (is_ok (m ids db).0 ≡ true))
        (m ids db).1
creation_lem user b dto m db =
    let ids = or_default dto.amenity_ids (get_default_amenity_ids b db) in
    let P = (is_ok (assert_amenity_ids b ids db).0 ≡ true) × (is_ok (m ids db).0 ≡ true) in
    let written = (m ids db).1 in
    behind (require_building user b)
      (λ o. on_unique_violation (conflict "Unit label already exists") (checked_type o b dto m)) P
      db written (require_building-reads user b db)
      (λ o _.
        on_unique-Leaves (conflict "Unit label already exists") (checked_type o b dto m) P db
          written
          (behind (assert_unit_type_in_org o dto.unit_type_id) (λ _. checked_owner o b dto m) P db
            written (assert_unit_type-reads o dto.unit_type_id db)
            (λ _ _.
              behind (assert_owner_in_org o dto.owner_id) (λ _. checked_ids b dto m) P db written
                (assert_owner-reads o dto.owner_id db)
                (λ _ _.
                  behind (assert_amenity_ids b ids) (λ _. transaction (m ids)) P db written
                    (assert_amenity_ids-reads b ids db)
                    (λ _ passed. elim (in_transaction (m ids) db) [
                      | inl same ↦ inl same
                      | inr (stored, left) ↦ inr ((ap is_ok passed, stored), left)
                    ])))))
