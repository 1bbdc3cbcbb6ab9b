-- ===== src/Estate/Amenities.antt =====
-- What the count of amenities in `assertAmenityIds` decides.
use towerdesk_backend.Common.{
  ℕ, Bool, true, false, not, ◌&&◌, List, [], ◌∷◌, ◌≡◌, refl, ◌==◌, nat_eq, ◌+◌, ◌≤◌, includes,
  length, select, any, every, has_key, UniqueKeys, arith, if◌then◌else◌,
}
use towerdesk_backend.Store.{Uid, Db}
use towerdesk_backend.Store.Estate.{BuildingAmenity}
use towerdesk_backend.Maintenance.Visibility.{is_ok}
use towerdesk_backend.Estate.Units.{assert_amenity_ids, is_choice}

abbrev pub amenity_key : BuildingAmenity → Uid
amenity_key a = a.id

-- No id stands twice.
abbrev pub is_distinct : List Uid → Bool
is_distinct [] = true
is_distinct (i ∷ is) = not (includes is i) && is_distinct is

-- The amenity is active, and of the building.
abbrev pub is_of : Uid → BuildingAmenity → Bool
is_of b a = a.building_id == b && a.is_active

-- The id names an active amenity of the building.
abbrev pub names_amenity : Uid → List BuildingAmenity → Uid → Bool
names_amenity b rows i = any (λ a. is_of b a && a.id == i) rows

abbrev hits : Uid → List Uid → List BuildingAmenity → ℕ
hits b ids rows = length (select (is_choice b ids) rows)

named_key :
    (b i : Uid) (rows : List BuildingAmenity)
    → has_key amenity_key i rows ≡ false
    → names_amenity b rows i ≡ false
unfolding any
named_key b i [] h = refl
named_key b i (a ∷ rows) h = ground (arith, named_key b i rows)

-- One more id finds one more row, if it names one and was not among the ids.
hits_step :
    (b i : Uid) (is : List Uid) (rows : List BuildingAmenity)
    → UniqueKeys amenity_key rows
    → hits b (i ∷ is) rows
      ≡ (if names_amenity b rows i && not (includes is i) then 1 else 0) + hits b is rows
unfolding select any includes
hits_step b i is [] u = ground arith
hits_step b i is (a ∷ rows) u = ground (arith, hits_step b i is rows u.1, named_key b i rows)

no_hits : (b : Uid) (rows : List BuildingAmenity) → hits b [] rows ≡ 0
unfolding select includes
no_hits b [] = refl
no_hits b (a ∷ rows) = ground (arith, no_hits b rows)

hits_bound :
    (b : Uid) (ids : List Uid) (rows : List BuildingAmenity)
    → UniqueKeys amenity_key rows
    → hits b ids rows ≤ length ids
hits_bound b [] rows u = ground (arith, no_hits b rows)
hits_bound b (i ∷ is) rows u = ground (arith, hits_step b i is rows u, hits_bound b is rows u)

hits_full :
    (b : Uid) (ids : List Uid) (rows : List BuildingAmenity)
    → UniqueKeys amenity_key rows
    → (hits b ids rows == length ids) ≡ (every (names_amenity b rows) ids && is_distinct ids)
unfolding every
hits_full b [] rows u = ground (arith, no_hits b rows)
hits_full b (i ∷ is) rows u =
    ground (arith, hits_step b i is rows u, hits_bound b is rows u, hits_full b is rows u)

-- The keys of amenities being unique: the ids pass exactly if each of them names an active amenity
-- of the building and none of them stands twice.
pub assert_amenity_ids_lem :
    (b : Uid) (ids : List Uid) (db : Db)
    → UniqueKeys amenity_key db.building_amenities
    → is_ok (assert_amenity_ids b ids db).0
      ≡ (every (names_amenity b db.building_amenities) ids && is_distinct ids)
unfolding assert_amenity_ids every
assert_amenity_ids_lem b [] db u = refl
assert_amenity_ids_lem b (i ∷ is) db u =
    ground (arith, hits_full b (i ∷ is) db.building_amenities u)
