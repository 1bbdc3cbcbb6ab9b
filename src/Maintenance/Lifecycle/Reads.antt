-- ===== src/Maintenance/Lifecycle/Reads.antt =====
-- The calls that do not write the table of requests.
use towerdesk_backend.Common.{Option, ◌≡◌, arith, List}
use towerdesk_backend.Store.{Db, Uid, Time, Text, Status}
use towerdesk_backend.Scope.{AuthenticatedUser}
use towerdesk_backend.Maintenance.Resident.{
  AttachmentDto, list_resident_requests, get_resident_request, add_resident_comment,
  list_resident_comments,
}
use towerdesk_backend.Maintenance.Staff.{
  list_building_requests, get_building_request, add_building_comment, list_building_comments,
  add_building_attachments,
}

module _ (db : Db) (user : Option AuthenticatedUser) where
  pub add_resident_comment_same :
      (id : Uid) (now : Time) (request_id : Uid) (message : Text)
      → (add_resident_comment id now user request_id message db).1.requests ≡ db.requests
  unfolding add_resident_comment
  add_resident_comment_same id now request_id message = ground arith

  pub add_building_comment_same :
      (id : Uid) (now : Time) (building_id request_id : Uid) (message : Text)
      → (add_building_comment id now user building_id request_id message db).1.requests
        ≡ db.requests
  unfolding add_building_comment
  add_building_comment_same id now building_id request_id message = ground arith

  pub add_building_attachments_same :
      (building_id request_id : Uid) (attachments : List AttachmentDto)
      → (add_building_attachments user building_id request_id attachments db).1.requests
        ≡ db.requests
  unfolding add_building_attachments
  add_building_attachments_same building_id request_id attachments = ground arith

  pub list_resident_requests_same : (list_resident_requests user db).1.requests ≡ db.requests
  unfolding list_resident_requests
  list_resident_requests_same = ground arith

  pub get_resident_request_same :
      (request_id : Uid) → (get_resident_request user request_id db).1.requests ≡ db.requests
  unfolding get_resident_request
  get_resident_request_same request_id = ground arith

  pub list_resident_comments_same :
      (request_id : Uid) → (list_resident_comments user request_id db).1.requests ≡ db.requests
  unfolding list_resident_comments
  list_resident_comments_same request_id = ground arith

  pub list_building_requests_same :
      (building_id : Uid) (status : Option Status)
      → (list_building_requests user building_id status db).1.requests ≡ db.requests
  unfolding list_building_requests
  list_building_requests_same building_id status = ground arith

  pub get_building_request_same :
      (building_id request_id : Uid)
      → (get_building_request user building_id request_id db).1.requests ≡ db.requests
  unfolding get_building_request
  get_building_request_same building_id request_id = ground arith

  pub list_building_comments_same :
      (building_id request_id : Uid)
      → (list_building_comments user building_id request_id db).1.requests ≡ db.requests
  unfolding list_building_comments
  list_building_comments_same building_id request_id = ground arith
