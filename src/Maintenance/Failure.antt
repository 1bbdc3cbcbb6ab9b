-- ===== src/Maintenance/Failure.antt =====
-- A call that throws has written nothing.
use towerdesk_backend.Common.{Option, ◌≡◌, arith, List}
use towerdesk_backend.Store.{Db, Error, err, Uid, Time, Text, Status, Action}
use towerdesk_backend.Scope.{AuthenticatedUser}
use towerdesk_backend.Maintenance.Calls.{Call, perform, done}
use towerdesk_backend.Maintenance.Resident.{
  create_resident_request, list_resident_requests, get_resident_request, update_resident_request,
  cancel_resident_request, add_resident_comment, list_resident_comments, CreateResidentRequestDto,
  UpdateResidentRequestDto, AttachmentDto,
}
use towerdesk_backend.Maintenance.Staff.{
  list_building_requests, get_building_request, assign_request, update_request_status,
  cancel_building_request, add_building_comment, list_building_comments, add_building_attachments,
}

-- A method that throws leaves the database as it was, the trace of the events included.
abbrev pub IsAtomic : {A : Type 0} → Action A → Type 0
IsAtomic m = (db : Db) (e : Error) → (m db).0 ≡ err e → (m db).1 ≡ db

create_resident_request-IsAtomic :
    (id : Uid) (now : Time) (user : Option AuthenticatedUser) (dto : CreateResidentRequestDto)
    → IsAtomic (create_resident_request id now user dto)
unfolding create_resident_request
create_resident_request-IsAtomic id now user dto db e h = ground arith

update_resident_request-IsAtomic :
    (user : Option AuthenticatedUser) (request_id : Uid) (dto : UpdateResidentRequestDto)
    → IsAtomic (update_resident_request user request_id dto)
unfolding update_resident_request
update_resident_request-IsAtomic user request_id dto db e h = ground arith

cancel_resident_request-IsAtomic :
    (now : Time) (user : Option AuthenticatedUser) (request_id : Uid)
    → IsAtomic (cancel_resident_request now user request_id)
unfolding cancel_resident_request
cancel_resident_request-IsAtomic now user request_id db e h = ground arith

add_resident_comment-IsAtomic :
    (id : Uid) (now : Time) (user : Option AuthenticatedUser) (request_id : Uid) (message : Text)
    → IsAtomic (add_resident_comment id now user request_id message)
unfolding add_resident_comment
add_resident_comment-IsAtomic id now user request_id message db e h = ground arith

assign_request-IsAtomic :
    (now : Time) (user : Option AuthenticatedUser) (building_id request_id staff_user_id : Uid)
    → IsAtomic (assign_request now user building_id request_id staff_user_id)
unfolding assign_request
assign_request-IsAtomic now user building_id request_id staff_user_id db e h = ground arith

update_request_status-IsAtomic :
    (now : Time) (user : Option AuthenticatedUser) (building_id request_id : Uid) (status : Status)
    → IsAtomic (update_request_status now user building_id request_id status)
unfolding update_request_status
update_request_status-IsAtomic now user building_id request_id status db e h = ground arith

cancel_building_request-IsAtomic :
    (now : Time) (user : Option AuthenticatedUser) (building_id request_id : Uid)
    → IsAtomic (cancel_building_request now user building_id request_id)
unfolding cancel_building_request
cancel_building_request-IsAtomic now user building_id request_id db e h = ground arith

add_building_comment-IsAtomic :
    (id : Uid) (now : Time) (user : Option AuthenticatedUser) (building_id request_id : Uid)
    (message : Text)
    → IsAtomic (add_building_comment id now user building_id request_id message)
unfolding add_building_comment
add_building_comment-IsAtomic id now user building_id request_id message db e h = ground arith

add_building_attachments-IsAtomic :
    (user : Option AuthenticatedUser) (building_id request_id : Uid)
    (attachments : List AttachmentDto)
    → IsAtomic (add_building_attachments user building_id request_id attachments)
unfolding add_building_attachments
add_building_attachments-IsAtomic user building_id request_id attachments db e h = ground arith

list_resident_requests-IsAtomic :
    (user : Option AuthenticatedUser) → IsAtomic (list_resident_requests user)
unfolding list_resident_requests
list_resident_requests-IsAtomic user db e h = ground arith

get_resident_request-IsAtomic :
    (user : Option AuthenticatedUser) (request_id : Uid)
    → IsAtomic (get_resident_request user request_id)
unfolding get_resident_request
get_resident_request-IsAtomic user request_id db e h = ground arith

list_resident_comments-IsAtomic :
    (user : Option AuthenticatedUser) (request_id : Uid)
    → IsAtomic (list_resident_comments user request_id)
unfolding list_resident_comments
list_resident_comments-IsAtomic user request_id db e h = ground arith

list_building_requests-IsAtomic :
    (user : Option AuthenticatedUser) (building_id : Uid) (status : Option Status)
    → IsAtomic (list_building_requests user building_id status)
unfolding list_building_requests
list_building_requests-IsAtomic user building_id status db e h = ground arith

get_building_request-IsAtomic :
    (user : Option AuthenticatedUser) (building_id request_id : Uid)
    → IsAtomic (get_building_request user building_id request_id)
unfolding get_building_request
get_building_request-IsAtomic user building_id request_id db e h = ground arith

list_building_comments-IsAtomic :
    (user : Option AuthenticatedUser) (building_id request_id : Uid)
    → IsAtomic (list_building_comments user building_id request_id)
unfolding list_building_comments
list_building_comments-IsAtomic user building_id request_id db e h = ground arith

module _ {A : Type 0} (m : Action A) where
  done-IsAtomic : IsAtomic m → IsAtomic (done m)
  done-IsAtomic h db e k = ground (arith, h db e)

-- Whoever calls the service, and whatever for: a call that throws leaves the database as it was,
-- and emits no event.
pub perform-IsAtomic :
    (user : Option AuthenticatedUser) (call : Call) → IsAtomic (perform user call)
unfolding perform
perform-IsAtomic user (Call.create_resident id now dto) =
    done-IsAtomic (create_resident_request id now user dto)
      (create_resident_request-IsAtomic id now user dto)
perform-IsAtomic user (Call.list_resident) =
    done-IsAtomic (list_resident_requests user) (list_resident_requests-IsAtomic user)
perform-IsAtomic user (Call.get_resident request_id) =
    done-IsAtomic (get_resident_request user request_id)
      (get_resident_request-IsAtomic user request_id)
perform-IsAtomic user (Call.update_resident request_id dto) =
    done-IsAtomic (update_resident_request user request_id dto)
      (update_resident_request-IsAtomic user request_id dto)
perform-IsAtomic user (Call.cancel_resident now request_id) =
    done-IsAtomic (cancel_resident_request now user request_id)
      (cancel_resident_request-IsAtomic now user request_id)
perform-IsAtomic user (Call.comment_resident id now request_id message) =
    done-IsAtomic (add_resident_comment id now user request_id message)
      (add_resident_comment-IsAtomic id now user request_id message)
perform-IsAtomic user (Call.comments_resident request_id) =
    done-IsAtomic (list_resident_comments user request_id)
      (list_resident_comments-IsAtomic user request_id)
perform-IsAtomic user (Call.list_building building_id status) =
    done-IsAtomic (list_building_requests user building_id status)
      (list_building_requests-IsAtomic user building_id status)
perform-IsAtomic user (Call.get_building building_id request_id) =
    done-IsAtomic (get_building_request user building_id request_id)
      (get_building_request-IsAtomic user building_id request_id)
perform-IsAtomic user (Call.assign now building_id request_id staff_user_id) =
    done-IsAtomic (assign_request now user building_id request_id staff_user_id)
      (assign_request-IsAtomic now user building_id request_id staff_user_id)
perform-IsAtomic user (Call.set_status now building_id request_id status) =
    done-IsAtomic (update_request_status now user building_id request_id status)
      (update_request_status-IsAtomic now user building_id request_id status)
perform-IsAtomic user (Call.cancel_building now building_id request_id) =
    done-IsAtomic (cancel_building_request now user building_id request_id)
      (cancel_building_request-IsAtomic now user building_id request_id)
perform-IsAtomic user (Call.comment_building id now building_id request_id message) =
    done-IsAtomic (add_building_comment id now user building_id request_id message)
      (add_building_comment-IsAtomic id now user building_id request_id message)
perform-IsAtomic user (Call.comments_building building_id request_id) =
    done-IsAtomic (list_building_comments user building_id request_id)
      (list_building_comments-IsAtomic user building_id request_id)
perform-IsAtomic user (Call.attach_building building_id request_id attachments) =
    done-IsAtomic (add_building_attachments user building_id request_id attachments)
      (add_building_attachments-IsAtomic user building_id request_id attachments)
