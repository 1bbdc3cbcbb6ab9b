-- ===== src/Estate/Links.antt =====
-- The links between units and amenities, when a unit is created.
use towerdesk_backend.Common.{
  Bool, true, ◌&&◌, Option, List, [], ◌∷◌, ◌++◌, ◌≡◌, ◌⊎◌, refl, sym, ◌∙◌, ◌==◌, nat_eq, any, every,
  update, UniqueKeys, All, All-append, any-append, is_empty, or_default, arith, Bool-cases, inl,
  inr, subst,
}
use towerdesk_backend.Store.{Uid, Time, UnitRow, Db}
use towerdesk_backend.Store.Estate.{BuildingAmenity, UnitAmenity}
use towerdesk_backend.Access.{insert_missing}
use towerdesk_backend.Scope.{AuthenticatedUser}
use towerdesk_backend.Maintenance.Visibility.{is_ok}
use towerdesk_backend.Estate.Records.{create_links, CreateUnitDto, same_link, links_of}
use towerdesk_backend.Estate.Units.{store_unit, create_unit, get_default_amenity_ids, map_unit_data}
use towerdesk_backend.Estate.Checks.{creation_lem}
use towerdesk_backend.Estate.Amenities.{amenity_key, names_amenity, assert_amenity_ids_lem}

-- The link names a unit and an amenity of one building.
abbrev pub in_building : List BuildingAmenity → UnitAmenity → UnitRow → Bool
in_building rows l u =
    u.id == l.unit_id && any (λ a. a.id == l.amenity_id && a.building_id == u.building_id) rows

abbrev pub LinksInBuilding : Db → Type 0
LinksInBuilding db =
    All (λ l. any (in_building db.building_amenities l) db.units ≡ true) db.unit_amenities

pub All-insert_missing :
    (P : UnitAmenity → Type 0) (new rows : List UnitAmenity)
    → All P new
    → All P rows
    → All P (insert_missing same_link new rows)
unfolding insert_missing
All-insert_missing P [] rows h k = k
All-insert_missing P (l ∷ new) rows h k = elim (Bool-cases (any (same_link l) rows)) [
  | inl e ↦ rw e (All-insert_missing P new rows h.1 k)
  | inr e ↦
      rw e (All-insert_missing P new (rows ++ l ∷ []) h.1 (All-append P rows (l ∷ []) k (h.0, tt)))
]

pub All-implies :
    {A : Type 0} (P Q : A → Type 0) (xs : List A) → ((x : A) → P x → Q x) → All P xs → All Q xs
All-implies P Q [] f h = tt
All-implies P Q (x ∷ xs) f h = (f x h.0, All-implies P Q xs f h.1)

pub any-update :
    (p : UnitRow → Bool) (id : Uid) (patch : UnitRow → UnitRow) (rows : List UnitRow)
    → ((x : UnitRow) → p (patch x) ≡ p x)
    → any p (update (λ (u : UnitRow). u.id) id patch rows) ≡ any p rows
unfolding any update
any-update p id patch [] h = refl
any-update p id patch (x ∷ rows) h = ground (arith, any-update p id patch rows h, h x)

named_amenity :
    (b i : Uid) (rows : List BuildingAmenity)
    → names_amenity b rows i ≡ true
    → any (λ a. a.id == i && a.building_id == b) rows ≡ true
unfolding any
named_amenity b i [] h = cc
named_amenity b i (a ∷ rows) h = ground (arith, named_amenity b i rows)

named_link :
    (b u i : Uid) (rows : List BuildingAmenity) (units : List UnitRow)
    → any (λ x. x.id == u && x.building_id == b) units ≡ true
    → names_amenity b rows i ≡ true
    → any (in_building rows (record { unit_id = u; amenity_id = i })) units ≡ true
unfolding any
named_link b u i rows [] h k = cc
named_link b u i rows (x ∷ units) h k = elim (Bool-cases (x.id == u && x.building_id == b)) [
  | inl e ↦
      let same : x.building_id ≡ b = ground arith in
      let named = named_amenity b i rows k in ground arith
  | inr e ↦ ground (arith, named_link b u i rows units)
]

-- The ids name amenities of the building of a unit that is stored.
pub new_links :
    (b u : Uid) (rows : List BuildingAmenity) (units : List UnitRow) (ids : List Uid)
    → any (λ x. x.id == u && x.building_id == b) units ≡ true
    → every (names_amenity b rows) ids ≡ true
    → All (λ l. any (in_building rows l) units ≡ true) (links_of u ids)
unfolding every
new_links b u rows units [] h k = tt
new_links b u rows units (i ∷ ids) h k =
    (named_link b u i rows units h (ground arith), new_links b u rows units ids h (ground arith))

no_links :
    (u : Uid) (ids : List Uid) (rows : List UnitAmenity)
    → is_empty ids ≡ true
    → insert_missing same_link (links_of u ids) rows ≡ rows
unfolding insert_missing
no_links u [] rows h = refl
no_links u (i ∷ ids) rows h = cc

pub and_left : (p q : Bool) → (p && q) ≡ true → p ≡ true
and_left p q h = ground arith

store_unit_lem :
    (row : UnitRow) (ids : List Uid) (db : Db)
    → is_ok (store_unit row ids db).0 ≡ true
    → (store_unit row ids db).1 ≡ record db {
      units = db.units ++ row ∷ [];
      unit_amenities = insert_missing same_link (links_of row.id ids) db.unit_amenities;
    }
unfolding store_unit create_links
store_unit_lem row ids db h = ground (arith, no_links row.id ids db.unit_amenities)

-- What `create` leaves: nothing new, or a unit with links to amenities that the ids name.
create_unit_cases :
    (id : Uid) (now : Time) (user : Option AuthenticatedUser) (b : Uid) (dto : CreateUnitDto)
    (db : Db)
    → UniqueKeys amenity_key db.building_amenities
    → ((create_unit id now user b dto db).1 ≡ db)
      ⊎ ((ids : List Uid) × (every (names_amenity b db.building_amenities) ids ≡ true)
          × ((create_unit id now user b dto db).1 ≡ record db {
            units = db.units ++ map_unit_data id now b dto ∷ [];
            unit_amenities = insert_missing same_link (links_of id ids) db.unit_amenities;
          }))
unfolding create_unit map_unit_data
create_unit_cases id now user b dto db u =
    let row = map_unit_data id now b dto in
    let ids = or_default dto.amenity_ids (get_default_amenity_ids b db) in
    elim (creation_lem user b dto (store_unit row) db) [
      | inl same ↦ inl same
      | inr ((passed, stored), left) ↦ inr (
        ids,
        and_left _ _ (sym (assert_amenity_ids_lem b ids db u) ∙ passed),
        left ∙ store_unit_lem row ids db stored,
      )
    ]

-- The keys of amenities being unique: if every link is between a unit and an amenity of one
-- building, it is so after a unit is created, whether that succeeds or throws, and whether the
-- amenities are named or the defaults.
pub create_unit-LinksInBuilding :
    (id : Uid) (now : Time) (user : Option AuthenticatedUser) (b : Uid) (dto : CreateUnitDto)
    (db : Db)
    → UniqueKeys amenity_key db.building_amenities
    → LinksInBuilding db
    → LinksInBuilding (create_unit id now user b dto db).1
unfolding any map_unit_data
create_unit-LinksInBuilding id now user b dto db u h =
    elim (create_unit_cases id now user b dto db u) [
      | inl same ↦ subst LinksInBuilding (sym same) h
      | inr (ids, named, left) ↦
          let rows = db.building_amenities in
          let row = map_unit_data id now b dto in
          let units = db.units ++ row ∷ [] in
          let P = λ (l : UnitAmenity). any (in_building rows l) units ≡ true in
          let stored : any (λ x. x.id == id && x.building_id == b) units ≡ true =
            ground
              (arith, any-append (λ x. x.id == id && x.building_id == b) db.units (row ∷ [])) in
          let old : All P db.unit_amenities =
            All-implies (λ l. any (in_building rows l) db.units ≡ true) P db.unit_amenities
              (λ l k. ground (arith, any-append (in_building rows l) db.units (row ∷ []))) h in
          subst LinksInBuilding (sym left) (
            All-insert_missing P (links_of id ids) db.unit_amenities
              (new_links b id rows units ids stored named) old)
    ]
