-- ===== src/Maintenance/Lifecycle.antt =====
-- Every call of the service moves the requests along the life cycle.
pub mod Steps
mod Reads
use towerdesk_backend.Common.{
  ℕ, Bool, true, false, Option, none, some, List, [], ◌∷◌, ◌++◌, ◌≡◌, ◌⊎◌, inl, inr, refl, find,
  has_key, UniqueKeys, arith,
}
use towerdesk_backend.Store.{Uid, Status, completed, MaintenanceRequest, Db, Action}
use towerdesk_backend.Scope.{AuthenticatedUser}
use towerdesk_backend.Maintenance.Repo.{request_id_of}
use towerdesk_backend.Maintenance.Calls.{Call, done, perform, run}
use towerdesk_backend.Maintenance.Resident.{
  create_resident_request, list_resident_requests, get_resident_request, update_resident_request,
  cancel_resident_request, add_resident_comment, list_resident_comments,
}
use towerdesk_backend.Maintenance.Staff.{
  list_building_requests, get_building_request, assign_request, update_request_status,
  cancel_building_request, add_building_comment, list_building_comments, add_building_attachments,
}
use towerdesk_backend.Maintenance.Evolution.{
  Evolves-find, by_id, Follows, ⟶*-closed, Evolves, Evolves-refl, Evolves-trans,
}
use towerdesk_backend.Maintenance.Rules.{is_closed}
use Steps.{Keeps, Keeps-same}
use Steps
use Reads

-- The id that the database draws for a new request is not in the table.
abbrev pub IsFresh : Call → Db → Type 0
IsFresh (Call.create_resident id now dto) db = has_key request_id_of id db.requests ≡ false
IsFresh _ db = Unit

done-requests : {A : Type 0} (m : Action A) (db : Db) → (done m db).1.requests ≡ (m db).1.requests
done-requests m db = ground arith

kept :
    {A : Type 0} (m : Action A) (db : Db)
    → Keeps db.requests (m db).1.requests
    → Keeps db.requests (done m db).1.requests
kept m db h = rw (done-requests m db) h

same :
    {A : Type 0} (m : Action A) (db : Db)
    → UniqueKeys request_id_of db.requests
    → (m db).1.requests ≡ db.requests
    → Keeps db.requests (done m db).1.requests
same m db u e = kept m db (Keeps-same db.requests (m db).1.requests u e)

-- Keys being unique, and the id of a new request not in the table: one call of the service, by
-- anyone, loses and moves no request; each one moves along the life cycle and keeps its key,
-- organisation, building, unit, creator and creation time; and keys stay unique.
pub perform-Keeps :
    (user : Option AuthenticatedUser) (call : Call) (db : Db)
    → UniqueKeys request_id_of db.requests
    → IsFresh call db
    → Keeps db.requests (perform user call db).1.requests
unfolding perform
perform-Keeps user (Call.create_resident id now dto) db u fresh =
    kept (create_resident_request id now user dto) db
      (Steps.create_resident_request-Keeps db u user id now dto fresh)
perform-Keeps user (Call.update_resident request_id dto) db u fresh =
    kept (update_resident_request user request_id dto) db
      (Steps.update_resident_request-Keeps db u user request_id dto)
perform-Keeps user (Call.cancel_resident now request_id) db u fresh =
    kept (cancel_resident_request now user request_id) db
      (Steps.cancel_resident_request-Keeps db u user now request_id)
perform-Keeps user (Call.assign now building_id request_id staff_user_id) db u fresh =
    kept (assign_request now user building_id request_id staff_user_id) db
      (Steps.assign_request-Keeps db u user now building_id request_id staff_user_id)
perform-Keeps user (Call.set_status now building_id request_id status) db u fresh =
    kept (update_request_status now user building_id request_id status) db
      (Steps.update_request_status-Keeps db u user now building_id request_id status)
perform-Keeps user (Call.cancel_building now building_id request_id) db u fresh =
    kept (cancel_building_request now user building_id request_id) db
      (Steps.cancel_building_request-Keeps db u user now building_id request_id)
perform-Keeps user (Call.list_resident) db u fresh =
    same (list_resident_requests user) db u (Reads.list_resident_requests_same db user)
perform-Keeps user (Call.get_resident request_id) db u fresh =
    same (get_resident_request user request_id) db u
      (Reads.get_resident_request_same db user request_id)
perform-Keeps user (Call.comment_resident id now request_id message) db u fresh =
    same (add_resident_comment id now user request_id message) db u
      (Reads.add_resident_comment_same db user id now request_id message)
perform-Keeps user (Call.comments_resident request_id) db u fresh =
    same (list_resident_comments user request_id) db u
      (Reads.list_resident_comments_same db user request_id)
perform-Keeps user (Call.list_building building_id status) db u fresh =
    same (list_building_requests user building_id status) db u
      (Reads.list_building_requests_same db user building_id status)
perform-Keeps user (Call.get_building building_id request_id) db u fresh =
    same (get_building_request user building_id request_id) db u
      (Reads.get_building_request_same db user building_id request_id)
perform-Keeps user (Call.comment_building id now building_id request_id message) db u fresh =
    same (add_building_comment id now user building_id request_id message) db u
      (Reads.add_building_comment_same db user id now building_id request_id message)
perform-Keeps user (Call.comments_building building_id request_id) db u fresh =
    same (list_building_comments user building_id request_id) db u
      (Reads.list_building_comments_same db user building_id request_id)
perform-Keeps user (Call.attach_building building_id request_id attachments) db u fresh =
    same (add_building_attachments user building_id request_id attachments) db u
      (Reads.add_building_attachments_same db user building_id request_id attachments)

abbrev pub AllFresh : List (Option AuthenticatedUser × Call) → Db → Type 0
AllFresh [] db = Unit
AllFresh ((user, call) ∷ calls) db = IsFresh call db × AllFresh calls (perform user call db).1

-- Keys being unique, and the ids of new requests not in the table: the same holds of any sequence
-- of calls, by any users. No request is lost or moved, each one moves along the life cycle and
-- keeps what names and places it, and keys stay unique.
pub run-Keeps :
    (calls : List (Option AuthenticatedUser × Call)) (db : Db)
    → UniqueKeys request_id_of db.requests
    → AllFresh calls db
    → Keeps db.requests (run calls db).requests
unfolding run
run-Keeps [] db u fresh = (Evolves-refl db.requests, u)
run-Keeps ((user, call) ∷ calls) db u fresh =
    let first = perform-Keeps user call db u fresh.0 in
    let rest = run-Keeps calls (perform user call db).1 first.1 fresh.1 in
    (Evolves-trans db.requests (perform user call db).1.requests _ first.0 rest.0, rest.1)

-- Keys being unique, and the ids of new requests not in the table: a request that is completed or
-- canceled keeps that status whatever is called afterwards, and it stays where it was, in its
-- organisation, building and unit.
pub closed_stays_closed :
    (calls : List (Option AuthenticatedUser × Call)) (db : Db) (id : Uid) (r : MaintenanceRequest)
    → UniqueKeys request_id_of db.requests
    → AllFresh calls db
    → find (by_id id) db.requests ≡ some r
    → is_closed r.status ≡ true
    → (r' : MaintenanceRequest) × (find (by_id id) (run calls db).requests ≡ some r')
      × (r'.status ≡ r.status)
      × Follows r r'
closed_stays_closed calls db id r u fresh f closed =
    let (evolves, _) = run-Keeps calls db u fresh in
    let (r', f', k) = Evolves-find id db.requests (run calls db).requests r evolves f in
    (r', f', ⟶*-closed r.status r'.status closed k.status, k)
