-- ===== src/Maintenance/Events/Quiet.antt =====
-- The calls that emit none.
use towerdesk_backend.Common.{Option, none, List, arith}
use towerdesk_backend.Store.{Uid, Status}
use towerdesk_backend.Scope.{AuthenticatedUser}
use towerdesk_backend.Maintenance.Resident.{
  UpdateResidentRequestDto, AttachmentDto, list_resident_requests, get_resident_request,
  update_resident_request, list_resident_comments,
}
use towerdesk_backend.Maintenance.Staff.{
  list_building_requests, get_building_request, list_building_comments, add_building_attachments,
}
use towerdesk_backend.Maintenance.Events.Loud.{Announces}

pub update_resident_request-Announces :
    (user : Option AuthenticatedUser) (request_id : Uid) (dto : UpdateResidentRequestDto)
    → Announces none (update_resident_request user request_id dto)
unfolding update_resident_request
update_resident_request-Announces user request_id dto db = ground arith

pub add_building_attachments-Announces :
    (user : Option AuthenticatedUser) (building_id request_id : Uid)
    (attachments : List AttachmentDto)
    → Announces none (add_building_attachments user building_id request_id attachments)
unfolding add_building_attachments
add_building_attachments-Announces user building_id request_id attachments db = ground arith

pub list_resident_requests-Announces :
    (user : Option AuthenticatedUser) → Announces none (list_resident_requests user)
unfolding list_resident_requests
list_resident_requests-Announces user db = ground arith

pub get_resident_request-Announces :
    (user : Option AuthenticatedUser) (request_id : Uid)
    → Announces none (get_resident_request user request_id)
unfolding get_resident_request
get_resident_request-Announces user request_id db = ground arith

pub list_resident_comments-Announces :
    (user : Option AuthenticatedUser) (request_id : Uid)
    → Announces none (list_resident_comments user request_id)
unfolding list_resident_comments
list_resident_comments-Announces user request_id db = ground arith

pub list_building_requests-Announces :
    (user : Option AuthenticatedUser) (building_id : Uid) (status : Option Status)
    → Announces none (list_building_requests user building_id status)
unfolding list_building_requests
list_building_requests-Announces user building_id status db = ground arith

pub get_building_request-Announces :
    (user : Option AuthenticatedUser) (building_id request_id : Uid)
    → Announces none (get_building_request user building_id request_id)
unfolding get_building_request
get_building_request-Announces user building_id request_id db = ground arith

pub list_building_comments-Announces :
    (user : Option AuthenticatedUser) (building_id request_id : Uid)
    → Announces none (list_building_comments user building_id request_id)
unfolding list_building_comments
list_building_comments-Announces user building_id request_id db = ground arith
