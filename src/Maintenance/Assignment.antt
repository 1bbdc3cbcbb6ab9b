-- ===== src/Maintenance/Assignment.antt =====
-- Who may assign a request and move it on, and what is stored then.
use towerdesk_backend.Common.{
  Bool, true, false, not, ◌&&◌, Option, none, some, ◌≡◌, refl, ◌==◌, nat_eq, find, is_some,
  find-update, find_by_key, UniqueKeys, arith, Option-cases, find-holds, if◌then◌else◌, inl, inr,
}
use towerdesk_backend.Store.{
  Uid, Time, Status, open_, assigned, status_eq, staff, MaintenanceRequest, Building, User, Db,
  completed,
}
use towerdesk_backend.Scope.{
  AuthenticatedUser, org_of, sub_of, find_building, get_building_assignment_type, is_type,
}
use towerdesk_backend.Maintenance.Rules.{may_become}
use towerdesk_backend.Maintenance.Repo.{
  for_building, request_id_of, find_user_by_id, find_staff_assignment,
}
use towerdesk_backend.Maintenance.Staff.{
  assign_request, assign_to, update_request_status, move_to, is_foreign_staff, is_outsider,
}
use towerdesk_backend.Maintenance.Visibility.{is_ok}

-- The caller is signed in with an organisation, the building is one of it, and the request is one
-- of the building.
pub record Reaches (db : Db) (user : Option AuthenticatedUser) (o s b id : Uid)
    (r : MaintenanceRequest) : Type 0 where
  pub building : Building
  pub org : org_of user ≡ some o
  pub sub : sub_of user ≡ some s
  pub owned : find_building b o db ≡ some building
  pub found : find (for_building o b id) db.requests ≡ some r

-- The user is there, is active in the organisation, and is assigned to the building as staff.
abbrev pub is_staff_of : Db → Uid → Uid → Option User → Bool
is_staff_of db o b none = false
is_staff_of db o b (some x) = not (is_outsider o x) && is_some (find_staff_assignment b x.id db)

pub user_key : (id : Uid) (x : User) (db : Db) → find_user_by_id id db ≡ some x → x.id ≡ id
unfolding find_user_by_id
user_key id x db e = ground (arith, find-holds (λ y. y.id == id) db.users e)

module _ (db : Db) (user : Option AuthenticatedUser) (o s b id : Uid) (r : MaintenanceRequest)
    (u : UniqueKeys request_id_of db.requests) (reaches : Reaches db user o s b id r) where
  pub update_request_status_decides :
      (now : Time) (status : Status)
      → is_ok (update_request_status now user b id status db).0 ≡ (
          may_become r.status status
          && not (is_foreign_staff (get_building_assignment_type db b s) s r))
  unfolding update_request_status
  update_request_status_decides now status = ground (
    arith,
    reaches.org,
    reaches.sub,
    reaches.owned,
    reaches.found,
    find_by_key request_id_of (for_building o b id) db.requests r u reaches.found,
  )

  -- Keys being unique, and the request being one that the caller reaches: where the change of
  -- status succeeds, the request is stored with the new status, and with the time of completion
  -- if that status is COMPLETED; all else stays, the assignee too.
  pub update_request_status_stores :
      (now : Time) (status : Status)
      → is_ok (update_request_status now user b id status db).0 ≡ true
      → find (for_building o b id) (update_request_status now user b id status db).1.requests
        ≡ some (record r {
          status = status;
          completed_at = if status == completed then some now else r.completed_at;
        })
  unfolding update_request_status
  update_request_status_stores now status h = ground (
    arith,
    reaches.org,
    reaches.sub,
    reaches.owned,
    reaches.found,
    find_by_key request_id_of (for_building o b id) db.requests r u reaches.found,
    find-update request_id_of (for_building o b id) (move_to status now r) db.requests r (λ x. refl)
        reaches.found,
  )

  -- Keys being unique, and the request being one that the caller reaches: where the assignment
  -- succeeds, the request is stored as assigned to the user named from now on, and all else
  -- stays.
  pub assign_request_stores :
      (now : Time) (staff_user_id : Uid)
      → is_ok (assign_request now user b id staff_user_id db).0 ≡ true
      → find (for_building o b id) (assign_request now user b id staff_user_id db).1.requests
        ≡ some (record r {
          assigned_to_user_id = some staff_user_id;
          assigned_at = some now;
          status = assigned;
        })
  unfolding assign_request
  assign_request_stores now staff_user_id h =
      elim (Option-cases (find_user_by_id staff_user_id db)) [
        | inl nobody ↦ ground (arith, reaches.org, reaches.sub, reaches.owned, reaches.found)
        | inr (x, e) ↦ ground (
          arith,
          reaches.org,
          reaches.sub,
          reaches.owned,
          reaches.found,
          user_key staff_user_id x db e,
          find_by_key request_id_of (for_building o b id) db.requests r u reaches.found,
          find-update request_id_of (for_building o b id) (assign_to x.id now) db.requests r
              (λ x. refl) reaches.found,
        )
      ]

  -- Keys being unique, and the request being one that the caller reaches: if it is open and has
  -- no assignee, and the caller is not staff of the building at the highest, then the route for
  -- the status makes it ASSIGNED, still without an assignee.
  pub open_to_assigned_without_assignee :
      (now : Time)
      → r.status ≡ open_
      → r.assigned_to_user_id ≡ none
      → is_type staff (get_building_assignment_type db b s) ≡ false
      → (r' : MaintenanceRequest) × (find
            (for_building o b id)
            (update_request_status now user b id assigned db).1.requests
          ≡ some r')
        × (r'.status ≡ assigned)
        × (r'.assigned_to_user_id ≡ none)
  unfolding may_become
  open_to_assigned_without_assignee now e n h = (
    record r { status = assigned; completed_at = r.completed_at },
    update_request_status_stores now assigned
        (rw (update_request_status_decides now assigned, e) (ground arith)),
    refl,
    n,
  )
