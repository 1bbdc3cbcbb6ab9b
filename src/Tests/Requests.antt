-- ===== src/Tests/Requests.antt =====
-- The theorems on maintenance requests, on the sample.
use towerdesk_backend.Common.{
  Option, none, some, List, [], ◌∷◌, ◌≡◌, refl, arith, find, UniqueKeys, any, select,
}
use towerdesk_backend.Store.{
  open_, assigned, in_progress, completed, MaintenanceRequest, forbidden, status_eq,
}
use towerdesk_backend.Scope.{find_building, AuthenticatedUser, get_building_assignment_type}
use towerdesk_backend.Maintenance.{
  request_id_of, assign_request, list_building_requests, Call, perform, run,
}
use towerdesk_backend.Maintenance.Evolution.{by_id, Follows}
use towerdesk_backend.Maintenance.Lifecycle.Steps.{Keeps}
use towerdesk_backend.Maintenance.Lifecycle.{AllFresh, perform-Keeps, closed_stays_closed}
use towerdesk_backend.Maintenance.Failure.{perform-IsAtomic}
use towerdesk_backend.Maintenance.Visibility.{AllViews, InScope, listing-InScope}
use towerdesk_backend.Maintenance.Assignment.{Reaches}
use towerdesk_backend.Tests.Sample.{
  building_row, request_row, db, manager_user, staff_user, resident_user,
}

pub unique_requests : UniqueKeys request_id_of db.requests
unfolding any
unique_requests = ground arith

-- A completed request in the middle of other calls.
abbrev calls : List (Option AuthenticatedUser × Call)
calls =
    (manager_user, Call.assign 50 5 20 2)
    ∷ (staff_user, Call.set_status 51 5 20 in_progress)
    ∷ (manager_user, Call.cancel_building 52 5 21)
    ∷ (resident_user, Call.cancel_resident 53 20)
    ∷ []

all_fresh : AllFresh calls db
all_fresh = (tt, (tt, (tt, (tt, tt))))

closed_stays_closed_example :
    (r' : MaintenanceRequest) × (find (by_id 21) (run calls db).requests ≡ some r')
    × (r'.status ≡ completed)
    × Follows (request_row 21 completed (some 2)) r'
unfolding find
closed_stays_closed_example =
    closed_stays_closed calls db 21 (request_row 21 completed (some 2)) unique_requests all_fresh
      refl refl

perform-Keeps_example :
    Keeps db.requests (perform manager_user (Call.assign 50 5 20 2) db).1.requests
perform-Keeps_example = perform-Keeps manager_user (Call.assign 50 5 20 2) db unique_requests tt

perform-IsAtomic_example : (perform staff_user (Call.assign 50 5 20 2) db).1 ≡ db
unfolding perform assign_request find get_building_assignment_type select any
perform-IsAtomic_example =
    perform-IsAtomic staff_user (Call.assign 50 5 20 2) db
      (forbidden "Staff cannot assign requests") refl

pub manager-Reaches : Reaches db manager_user 9 1 5 20 (request_row 20 open_ none)
unfolding find find_building
manager-Reaches = record {
  building = building_row;
  org = refl;
  sub = refl;
  owned = refl;
  found = refl;
}

listing-InScope_example :
    AllViews
      (InScope db 9 2 5 (some assigned))
      (list_building_requests staff_user 5 (some assigned) db).0
listing-InScope_example = listing-InScope staff_user 5 (some assigned) db 9 2 refl refl
