-- ===== src/Estate/Vacancies.antt =====
-- Vacant units: the listing, the count, and who may move in.
use towerdesk_backend.Common.{
  Bool, true, false, not, ◌&&◌, Option, none, some, List, [], ◌∷◌, ◌≡◌, refl, ◌==◌, nat_eq, length,
  select, any, find, find-holds, sort_by, insert_by, any-sort_by, any-select, is_some, arith,
  Option-cases, inl, inr, suc,
}
use towerdesk_backend.Store.{Uid, Time, UnitRow, Db, Result, ok, err}
use towerdesk_backend.Scope.{AuthenticatedUser, org_of}
use towerdesk_backend.Org.{
  find_unit_for_building, find_active_occupancy, occupies, create_occupancy_for,
}
use towerdesk_backend.Org.Tenancy.{create_occupancy_for_decides, is_member, is_vacant}
use towerdesk_backend.Maintenance.Visibility.{is_ok}
use towerdesk_backend.Estate.Records.{is_offered, later_unit, has_no_active_occupancy}
use towerdesk_backend.Estate.Units.{list_units, count_vacant, UnitCount}

length-insert_by :
    {A : Type 0} (before : A → A → Bool) (a : A) (xs : List A)
    → length (insert_by before a xs) ≡ suc (length xs)
unfolding insert_by
length-insert_by before a [] = refl
length-insert_by before a (x ∷ xs) = ground (arith, length-insert_by before a xs)

length-sort_by :
    {A : Type 0} (before : A → A → Bool) (xs : List A) → length (sort_by before xs) ≡ length xs
unfolding sort_by
length-sort_by before [] = refl
length-sort_by before (x ∷ xs) =
    ground (arith, length-sort_by before xs, length-insert_by before x (sort_by before xs))

-- Tests that agree select the same rows.
select-same :
    {A : Type 0} (p q : A → Bool) (xs : List A)
    → ((x : A) → p x ≡ q x)
    → length (select p xs) ≡ length (select q xs)
unfolding select
select-same p q [] h = refl
select-same p q (x ∷ xs) h = ground (arith, h x, select-same p q xs h)

-- The counts that two listings amount to.
abbrev pub counted : Result (List UnitRow) → Result (List UnitRow) → Result UnitCount
counted (err e) vacant = err e
counted (ok all) (err e) = err e
counted (ok all) (ok vacant) = ok (record { total = length all; vacant = length vacant })

-- The counts of units are the lengths of the two listings, and are refused where those are.
pub count_vacant-list_units :
    (user : Option AuthenticatedUser) (b : Uid) (db : Db)
    → (count_vacant user b db).0
      ≡ counted (list_units user b none db).0 (list_units user b (some true) db).0
unfolding count_vacant list_units
count_vacant-list_units user b db = ground (
  arith,
  length-sort_by later_unit (select (is_offered db b false) db.units),
  length-sort_by later_unit (select (is_offered db b true) db.units),
  select-same (is_offered db b false) (λ u. u.building_id == b) db.units (λ x. ground arith),
  select-same (is_offered db b true) (λ u. u.building_id == b && has_no_active_occupancy db u)
      db.units (λ x. ground arith),
)

-- The listing shows a unit with the id.
abbrev pub shows_unit : Uid → Result (List UnitRow) → Bool
shows_unit u (ok rows) = any (λ x. x.id == u) rows
shows_unit u (err e) = false

any-found : {A : Type 0} (p : A → Bool) (xs : List A) → is_some (find p xs) ≡ any p xs
unfolding find any
any-found p [] = refl
any-found p (x ∷ xs) = ground (arith, any-found p xs)

-- A vacant unit of the building is among the rows, exactly if the first row with its id is one.
offered_vacant :
    (b u : Uid) (db : Db) (rows : List UnitRow)
    → any (λ x. is_offered db b true x && x.id == u) rows
      ≡ (any (λ x. x.id == u && x.building_id == b) rows && not (any (occupies u) db.occupancies))
unfolding any has_no_active_occupancy
offered_vacant b u db [] = refl
offered_vacant b u db (x ∷ rows) = ground (arith, offered_vacant b u db rows)

found_vacant :
    (b u : Uid) (db : Db)
    → any (λ x. is_offered db b true x && x.id == u) db.units ≡ is_vacant b u db
unfolding find_unit_for_building find_active_occupancy
found_vacant b u db = elim (Option-cases (find (λ x. x.id == u && x.building_id == b) db.units)) [
  | inl e ↦ ground (
    arith,
    e,
    offered_vacant b u db db.units,
    any-found (λ x. x.id == u && x.building_id == b) db.units,
  )
  | inr (x, e) ↦ ground (
    arith,
    e,
    offered_vacant b u db db.units,
    any-found (λ y. y.id == u && y.building_id == b) db.units,
    find-holds (λ y. y.id == u && y.building_id == b) db.units e,
    any-found (occupies u) db.occupancies,
  )
]

-- For a caller of the organisation `o` and an active user of it: an occupancy can be created for a
-- unit exactly if the listing of the available units of the building shows the unit.
pub list_units-create_occupancy_for :
    (id : Uid) (now : Time) (user : Option AuthenticatedUser) (b u resident o : Uid) (db : Db)
    → org_of user ≡ some o
    → is_member o db resident ≡ true
    → shows_unit u (list_units user b (some true) db).0
      ≡ is_ok (create_occupancy_for id now user b u resident db).0
unfolding list_units
list_units-create_occupancy_for id now user b u resident o db e m = ground (
  arith,
  create_occupancy_for_decides id now user b u resident db,
  any-sort_by later_unit (λ x. x.id == u) (select (is_offered db b true) db.units),
  any-select (is_offered db b true) (λ x. x.id == u) db.units,
  found_vacant b u db,
)
