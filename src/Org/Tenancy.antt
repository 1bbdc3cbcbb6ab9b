-- ===== src/Org/Tenancy.antt =====
-- When an occupancy is created, when a user is assigned to a building, and what is left then.
use towerdesk_backend.Common.{
  Bool, true, false, not, ◌&&◌, Option, none, some, [], ◌∷◌, ◌++◌, ◌≡◌, ◌==◌, nat_eq, string_eq,
  any, is_some, arith, Option-cases, inl, inr, find-holds,
}
use towerdesk_backend.Store.{
  Uid, Time, building_admin, BuildingAssignment, Db, err, bad_request, type_eq, User,
}
use towerdesk_backend.Access.{find_role_by_key}
use towerdesk_backend.Scope.{AuthenticatedUser, org_of, find_building}
use towerdesk_backend.Org.Directory.{find_user, find_unit_for_building, find_active_occupancy}
use towerdesk_backend.Org.Occupancies.{is_in_org, create_occupancy_for}
use towerdesk_backend.Org.Assignments.{assign_to_building, same_assignment}
use towerdesk_backend.Maintenance.Visibility.{is_ok}

-- An active user of the organisation.
abbrev pub is_member : Uid → Db → Uid → Bool
is_member o db id = elim (find_user id db) [
  | none ↦ false
  | some x ↦ x.is_active && is_in_org o x.org_id
]

-- The building is one of the caller's organisation.
abbrev pub owns : Option AuthenticatedUser → Uid → Db → (Uid → Bool) → Bool
owns user b db k = elim (org_of user) [
  | none ↦ false
  | some o ↦ is_some (find_building b o db) && k o
]

-- The unit is one of the building, and vacant.
abbrev pub is_vacant : Uid → Uid → Db → Bool
is_vacant b u db = elim (find_unit_for_building b u db) [
  | none ↦ false
  | some x ↦ not (is_some (find_active_occupancy x.id db))
]

-- An occupancy is created exactly if the building is one of the caller's organisation, the unit
-- is one of the building and vacant, and the resident is an active user of the organisation.
pub create_occupancy_for_decides :
    (id : Uid) (now : Time) (user : Option AuthenticatedUser) (b u resident : Uid) (db : Db)
    → is_ok (create_occupancy_for id now user b u resident db).0
      ≡ owns user b db (λ o. is_vacant b u db && is_member o db resident)
unfolding create_occupancy_for
create_occupancy_for_decides id now user b u resident db = ground arith

-- The row that makes the user an administrator of the building.
abbrev pub admin_row : Uid → Uid → Uid → BuildingAssignment
admin_row id b user_id = record {
  id = id;
  building_id = b;
  user_id = user_id;
  type = building_admin;
}

user_key : (id : Uid) (x : User) (db : Db) → find_user id db ≡ some x → x.id ≡ id
unfolding find_user
user_key id x db e = ground (arith, find-holds (λ y. y.id == id) db.users e)

-- Where there is no role `admin`, a member of the organisation who is not yet BUILDING_ADMIN of a
-- building of it and is made one: the call throws, but the row that it wrote before stays.
pub assign_to_building-leaves_row :
    (id : Uid) (user : Option AuthenticatedUser) (b user_id : Uid) (db : Db)
    → owns user b db (λ o. is_member o db user_id) ≡ true
    → any (same_assignment (admin_row id b user_id)) db.assignments ≡ false
    → find_role_by_key "admin" db ≡ none
    → assign_to_building id user b user_id building_admin db ≡ (
      err (bad_request "admin role not configured"),
      record db { assignments = db.assignments ++ admin_row id b user_id ∷ [] },
    )
unfolding assign_to_building
assign_to_building-leaves_row id user b user_id db h new k =
    elim (Option-cases (find_user user_id db)) [
      | inl e ↦ ground (arith, e)
      | inr (x, e) ↦ let y = user_key user_id x db e in ground arith
    ]
