-- ===== src/Maintenance/Calls.antt =====
-- The calls that the controllers make of the service, with what the database and the clock draw.
use towerdesk_backend.Common.{Option, List, [], ◌∷◌}
use towerdesk_backend.Store.{Uid, Time, Text, Status, Db, Action, ◌>>◌, pure}
use towerdesk_backend.Scope.{AuthenticatedUser}
use towerdesk_backend.Maintenance.Resident.{
  AttachmentDto, CreateResidentRequestDto, UpdateResidentRequestDto, create_resident_request,
  list_resident_requests, get_resident_request, update_resident_request, cancel_resident_request,
  add_resident_comment, list_resident_comments,
}
use towerdesk_backend.Maintenance.Staff.{
  list_building_requests, get_building_request, assign_request, update_request_status,
  cancel_building_request, add_building_comment, list_building_comments, add_building_attachments,
}

pub data Call : Type 0 where
  create_resident : Uid → Time → CreateResidentRequestDto → Call
  list_resident : Call
  get_resident : Uid → Call
  update_resident : Uid → UpdateResidentRequestDto → Call
  cancel_resident : Time → Uid → Call
  comment_resident : Uid → Time → Uid → Text → Call
  comments_resident : Uid → Call
  list_building : Uid → Option Status → Call
  get_building : Uid → Uid → Call
  assign : Time → Uid → Uid → Uid → Call
  set_status : Time → Uid → Uid → Status → Call
  cancel_building : Time → Uid → Uid → Call
  comment_building : Uid → Time → Uid → Uid → Text → Call
  comments_building : Uid → Uid → Call
  attach_building : Uid → Uid → List AttachmentDto → Call

abbrev pub done : {A : Type 0} → Action A → Action (Unit {0})
done m = do m; pure tt

unfoldable pub perform : Option AuthenticatedUser → Call → Action (Unit {0})
perform user (create_resident id now dto) = done (create_resident_request id now user dto)
perform user list_resident = done (list_resident_requests user)
perform user (get_resident request_id) = done (get_resident_request user request_id)
perform user (update_resident request_id dto) = done (update_resident_request user request_id dto)
perform user (cancel_resident now request_id) = done (cancel_resident_request now user request_id)
perform user (comment_resident id now request_id message) =
    done (add_resident_comment id now user request_id message)
perform user (comments_resident request_id) = done (list_resident_comments user request_id)
perform user (list_building building_id status) =
    done (list_building_requests user building_id status)
perform user (get_building building_id request_id) =
    done (get_building_request user building_id request_id)
perform user (assign now building_id request_id staff_user_id) =
    done (assign_request now user building_id request_id staff_user_id)
perform user (set_status now building_id request_id status) =
    done (update_request_status now user building_id request_id status)
perform user (cancel_building now building_id request_id) =
    done (cancel_building_request now user building_id request_id)
perform user (comment_building id now building_id request_id message) =
    done (add_building_comment id now user building_id request_id message)
perform user (comments_building building_id request_id) =
    done (list_building_comments user building_id request_id)
perform user (attach_building building_id request_id attachments) =
    done (add_building_attachments user building_id request_id attachments)

-- The routes are called one after the other; a call that throws answers with an error.
unfoldable pub run : List (Option AuthenticatedUser × Call) → Db → Db
unfolding perform
run [] db = db
run ((user, call) ∷ calls) db = run calls (perform user call db).1
