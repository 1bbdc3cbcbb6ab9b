-- ===== src/Maintenance/Visibility.antt =====
-- What the listings show, and that a single request can be read exactly if it is listed.
use towerdesk_backend.Common.{
  Bool, true, false, not, ◌&&◌, Option, none, some, List, [], ◌∷◌, map, ◌≡◌, refl, ◌∙◌, ◌==◌,
  nat_eq, any, All, find, select, sort_by, any-sort_by, any-select, All-sort_by, All-select,
  All-map, has_key, UniqueKeys, arith, Option-cases, is_some, inl, inr, Bool-cases, if◌then◌else◌,
  ◌⊎◌, subst, sym,
}
use towerdesk_backend.Store.{Uid, Status, staff, MaintenanceRequest, Db, Result, ok, err}
use towerdesk_backend.Scope.{
  AuthenticatedUser, org_of, sub_of, get_building_assignment_type, is_type,
}
use towerdesk_backend.Maintenance.Repo.{
  RequestView, full_view, newer, is_status, is_assignee, list_by_building, list_by_creator,
  for_building, for_creator, request_id_of,
}
use towerdesk_backend.Maintenance.Resident.{
  has_global_permission, list_resident_requests, get_resident_request,
}
use towerdesk_backend.Maintenance.Staff.{list_building_requests, get_building_request}

abbrev pub is_ok : {A : Type 0} → Result A → Bool
is_ok (ok a) = true
is_ok (err e) = false

-- The result shows a request with the id.
abbrev pub shows : Uid → Result (List RequestView) → Bool
shows id (ok views) = any (λ v. v.request.id == id) views
shows id (err e) = false

any-views :
    (p : MaintenanceRequest → Bool) (db : Db) (rs : List MaintenanceRequest)
    → any (λ v. p v.request) (map (full_view db) rs) ≡ any p rs
unfolding any full_view
any-views p db [] = refl
any-views p db (r ∷ rs) = ground (arith, any-views p db rs)

any-listed :
    (p q : MaintenanceRequest → Bool) (db : Db) (rs : List MaintenanceRequest)
    → any (λ v. p v.request) (map (full_view db) (sort_by newer (select q rs)))
      ≡ any (λ r. q r && p r) rs
any-listed p q db rs =
    any-views p db (sort_by newer (select q rs))
    ∙ any-sort_by newer p (select q rs)
    ∙ any-select q p rs

-- The row with the key decides.
any_by_key :
    (p q : MaintenanceRequest → Bool) (rs : List MaintenanceRequest) (id : Uid)
    → any (λ r. q r && r.id == id) rs ≡ any (λ r. r.id == id && q r) rs
unfolding any
any_by_key p q [] id = refl
any_by_key p q (r ∷ rs) id = ground (arith, any_by_key p q rs id)

found_creator :
    (org_id user_id id : Uid) (rs : List MaintenanceRequest)
    → any (λ r. (r.org_id == org_id && r.created_by_user_id == user_id) && r.id == id) rs
      ≡ is_some (find (for_creator org_id user_id id) rs)
unfolding any find
found_creator org_id user_id id [] = refl
found_creator org_id user_id id (r ∷ rs) = ground (arith, found_creator org_id user_id id rs)

-- A resident can read a request by its id exactly if their listing shows it.
pub get_resident_listed :
    (user : Option AuthenticatedUser) (id : Uid) (db : Db)
    → is_ok (get_resident_request user id db).0 ≡ shows id (list_resident_requests user db).0
unfolding get_resident_request list_resident_requests full_view list_by_creator
get_resident_listed user id db = elim (Option-cases (org_of user)) [
  | inl absent ↦ ground arith
  | inr (o, eo) ↦ elim (Option-cases (sub_of user)) [
    | inl nobody ↦ ground arith
    | inr (s, es) ↦ ground (
      arith,
      found_creator o s id db.requests,
      any-listed (λ r. r.id == id) (λ r. r.org_id == o && r.created_by_user_id == s) db db.requests,
    )
  ]
]

any_absent :
    (q : MaintenanceRequest → Bool) (id : Uid) (rs : List MaintenanceRequest)
    → has_key request_id_of id rs ≡ false
    → any (λ r. q r && r.id == id) rs ≡ false
unfolding any
any_absent q id [] h = refl
any_absent q id (r ∷ rs) h = ground (arith, any_absent q id rs)

abbrev listed_row : Uid → Uid → Option Uid → MaintenanceRequest → Bool
listed_row org_id building_id assignee r =
    r.org_id == org_id
    && (r.building_id == building_id
        && (is_status none r.status && is_assignee assignee r.assigned_to_user_id))

abbrev passes : Option Uid → Option MaintenanceRequest → Bool
passes assignee none = false
passes assignee (some r) = is_assignee assignee r.assigned_to_user_id

found_building :
    (org_id building_id id : Uid) (assignee : Option Uid) (rs : List MaintenanceRequest)
    → UniqueKeys request_id_of rs
    → any (λ r. listed_row org_id building_id assignee r && r.id == id) rs
      ≡ passes assignee (find (for_building org_id building_id id) rs)
unfolding any find
found_building org_id building_id id assignee [] u = refl
found_building org_id building_id id assignee (r ∷ rs) u = ground (
  arith,
  found_building org_id building_id id assignee rs u.1,
  any_absent (listed_row org_id building_id assignee) id rs,
)

-- Keys being unique, whoever may use the routes of a building can read a request of it by its id
-- exactly if the unfiltered listing shows it to them: for staff without the permission
-- `requests.read` that is what is assigned to them, for anybody else every request of the building.
pub get_building_listed :
    (user : Option AuthenticatedUser) (building_id id : Uid) (db : Db)
    → UniqueKeys request_id_of db.requests
    → is_ok (get_building_request user building_id id db).0
      ≡ shows id (list_building_requests user building_id none db).0
unfolding get_building_request list_building_requests list_by_building
get_building_listed user building_id id db u = elim (Option-cases (org_of user)) [
  | inl absent ↦ ground arith
  | inr (o, eo) ↦ elim (Option-cases (sub_of user)) [
    | inl nobody ↦ ground arith
    | inr (s, es) ↦
        elim (Bool-cases (
          is_type staff (get_building_assignment_type db building_id s)
          && not (has_global_permission db s "requests.read"))) [
            | inl restricted ↦ ground (
              arith,
              found_building o building_id id (some s) db.requests u,
              any-listed (λ r. r.id == id) (listed_row o building_id (some s)) db db.requests,
            )
            | inr free ↦ ground (
              arith,
              found_building o building_id id none db.requests u,
              any-listed (λ r. r.id == id) (listed_row o building_id none) db db.requests,
            )
          ]
  ]
]

abbrev pub AllViews : (MaintenanceRequest → Type 0) → Result (List RequestView) → Type 0
AllViews P (ok views) = All (λ v. P v.request) views
AllViews P (err e) = Unit

All-views :
    (P : MaintenanceRequest → Type 0) (db : Db) (rs : List MaintenanceRequest)
    → All P rs
    → All (λ v. P v.request) (map (full_view db) rs)
unfolding full_view
All-views P db [] h = tt
All-views P db (r ∷ rs) h = (h.0, All-views P db rs h.1)

-- The caller is staff of the building without the permission `requests.read`.
abbrev pub is_restricted : Db → Uid → Uid → Bool
is_restricted db building_id user_id =
    is_type staff (get_building_assignment_type db building_id user_id)
    && not (has_global_permission db user_id "requests.read")

abbrev pub InScope : Db → Uid → Uid → Uid → Option Status → MaintenanceRequest → Type 0
InScope db o s building_id status r =
    (r.org_id ≡ o)
    × (r.building_id ≡ building_id)
    × (is_status status r.status ≡ true)
    × (is_restricted db building_id s ≡ true → r.assigned_to_user_id ≡ some s)

listed-InScope :
    (db : Db) (o s building_id : Uid) (status : Option Status) (r : MaintenanceRequest)
    → (r.org_id == o
        && (r.building_id == building_id
            && (is_status status r.status
                && is_assignee
                    (if is_restricted db building_id s then some s else none)
                    r.assigned_to_user_id)))
      ≡ true
    → InScope db o s building_id status r
listed-InScope db o s building_id status r h =
    (ground arith, ground arith, ground arith, λ k. assignee (is_restricted db building_id s) k h)
  where
    assignee :
        (b : Bool)
        → b ≡ true
        → (r.org_id == o
            && (r.building_id == building_id
                && (is_status status r.status
                    && is_assignee (if b then some s else none) r.assigned_to_user_id)))
          ≡ true
        → r.assigned_to_user_id ≡ some s
    assignee b k h' = ground arith

-- A listing shows requests of the caller's organisation and of the building asked for alone, in
-- the status asked for; to staff without `requests.read` only those assigned to them.
pub listing-InScope :
    (user : Option AuthenticatedUser) (building_id : Uid) (status : Option Status) (db : Db)
    (o s : Uid)
    → org_of user ≡ some o
    → sub_of user ≡ some s
    → AllViews
        (InScope db o s building_id status)
        (list_building_requests user building_id status db).0
unfolding list_building_requests list_by_building
listing-InScope user building_id status db o s eo es =
    go (list_building_requests user building_id status db).0 (ground arith)
  where
    rows : List MaintenanceRequest
    rows =
        select
          (λ r.
            r.org_id == o
            && (r.building_id == building_id
                && (is_status status r.status
                    && is_assignee (if is_restricted db building_id s then some s else none)
                        r.assigned_to_user_id)))
          db.requests

    all : All (InScope db o s building_id status) rows
    all = All-map (listed-InScope db o s building_id status) rows (All-select _ db.requests)

    go :
        (result : Result (List RequestView))
        → (is_ok result ≡ false) ⊎ (result ≡ ok (map (full_view db) (sort_by newer rows)))
        → AllViews (InScope db o s building_id status) result
    go (err e) h = tt
    go (ok views) (inl h) = cc
    go (ok views) (inr h) = subst (AllViews (InScope db o s building_id status)) (sym h) (
        All-views (InScope db o s building_id status) db (sort_by newer rows)
          (All-sort_by newer (InScope db o s building_id status) rows all))
