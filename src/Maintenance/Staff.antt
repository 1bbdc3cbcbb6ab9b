-- ===== src/Maintenance/Staff.antt =====
-- maintenance-requests.service.ts: what the building's staff, managers and admins do.
use towerdesk_backend.Common.{
  Bool, false, Option, none, some, List, map, ◌==◌, nat_eq, ◌&&◌, ◌||◌, not, is_some, if◌then◌else◌,
}
use towerdesk_backend.Store.{
  Uid, Time, Text, Status, open_, assigned, completed, status_eq, AssignmentType, staff, User,
  MaintenanceRequest, RequestComment, request_assigned, request_status_changed, request_canceled,
  request_commented, Action, ◌>>=◌, ◌>>◌, pure, gets, transaction, or_throw, throw_if, forbidden,
  not_found, conflict, bad_request,
}
use towerdesk_backend.Scope.{
  AuthenticatedUser, assert_org_scope, require_user_id, assert_building_in_org,
  get_building_assignment_type, is_type,
}
use towerdesk_backend.Maintenance.Rules.{may_become, is_closed}
use towerdesk_backend.Maintenance.Repo.{
  RequestView, create_attachments, find_by_id_for_building, update_by_id, list_by_building,
  full_view, is_uid, create_comment, list_comments, find_user_by_id, find_staff_assignment,
}
use towerdesk_backend.Maintenance.Resident.{
  to_event_request, emit_event, has_global_permission, AttachmentDto, attachment_input, cancel,
  new_comment, comment_snapshot,
}

-- `assignmentType === STAFF && request.assignedToUserId !== userId`
abbrev pub is_foreign_staff : Option AssignmentType → Uid → MaintenanceRequest → Bool
is_foreign_staff assignment_type user_id request =
    is_type staff assignment_type && not (is_uid user_id request.assigned_to_user_id)

-- `listBuildingRequests`
unfoldable pub list_building_requests :
    Option AuthenticatedUser → Uid → Option Status → Action (List RequestView)
unfolding assert_org_scope require_user_id assert_building_in_org list_by_building
list_building_requests user building_id status = do
  org_id ← assert_org_scope user
  user_id ← require_user_id user
  assert_building_in_org building_id org_id
  assignment_type ← gets (λ db. get_building_assignment_type db building_id user_id)
  has_requests_read ← gets (λ db. has_global_permission db user_id "requests.read")
  let assigned_to_user_id =
      if is_type staff assignment_type && not has_requests_read then some user_id else none
  gets (list_by_building org_id building_id status assigned_to_user_id)

-- `getBuildingRequest`
unfoldable pub get_building_request : Option AuthenticatedUser → Uid → Uid → Action RequestView
unfolding assert_org_scope require_user_id assert_building_in_org find_by_id_for_building full_view
get_building_request user building_id request_id = do
  org_id ← assert_org_scope user
  user_id ← require_user_id user
  assert_building_in_org building_id org_id
  request ←
      or_throw (← gets (find_by_id_for_building org_id building_id request_id))
        (not_found "Request not found")
  assignment_type ← gets (λ db. get_building_assignment_type db building_id user_id)
  has_requests_read ← gets (λ db. has_global_permission db user_id "requests.read")
  throw_if
      (is_type staff assignment_type
        && (not has_requests_read && not (is_uid user_id request.assigned_to_user_id)))
      (forbidden "Forbidden")
  gets (λ db. full_view db request)

abbrev pub assign_to : Uid → Time → MaintenanceRequest → MaintenanceRequest
assign_to staff_id now row = record row {
  assigned_to_user_id = some staff_id;
  assigned_at = some now;
  status = assigned;
}

-- `!staffUser.isActive || staffUser.orgId !== orgId`
abbrev pub is_outsider : Uid → User → Bool
is_outsider org_id user = not user.is_active || not (is_uid org_id user.org_id)

-- `assignRequest`
unfoldable pub assign_request :
    Time → Option AuthenticatedUser → Uid → Uid → Uid → Action RequestView
unfolding assert_org_scope require_user_id assert_building_in_org find_by_id_for_building
    find_user_by_id find_staff_assignment update_by_id emit_event to_event_request
assign_request now user building_id request_id staff_user_id = do
  org_id ← assert_org_scope user
  user_id ← require_user_id user
  assert_building_in_org building_id org_id
  assignment_type ← gets (λ db. get_building_assignment_type db building_id user_id)
  throw_if (is_type staff assignment_type) (forbidden "Staff cannot assign requests")
  updated ← transaction (do
    request ←
        or_throw (← gets (find_by_id_for_building org_id building_id request_id))
          (not_found "Request not found")
    throw_if (not (request.status == open_) && not (request.status == assigned))
        (conflict "Request is not open or assigned")
    staff_user ←
        or_throw (← gets (find_user_by_id staff_user_id)) (bad_request "Staff user not in org")
    throw_if (is_outsider org_id staff_user) (bad_request "Staff user not in org")
    or_throw (← gets (find_staff_assignment building_id staff_user.id))
        (bad_request "Staff user not assigned to building")
    update_by_id request.id (assign_to staff_user.id now))
  emit_event request_assigned (record {
    request = to_event_request updated;
    actor_user_id = user_id;
    actor_is_resident = none;
    comment = none;
  })
  pure updated

abbrev pub move_to : Status → Time → MaintenanceRequest → MaintenanceRequest → MaintenanceRequest
move_to status now request row = record row {
  status = status;
  completed_at = if status == completed then some now else request.completed_at;
}

-- `updateRequestStatus`
unfoldable pub update_request_status :
    Time → Option AuthenticatedUser → Uid → Uid → Status → Action RequestView
unfolding assert_org_scope require_user_id assert_building_in_org find_by_id_for_building
    update_by_id emit_event to_event_request
update_request_status now user building_id request_id status = do
  org_id ← assert_org_scope user
  user_id ← require_user_id user
  assert_building_in_org building_id org_id
  assignment_type ← gets (λ db. get_building_assignment_type db building_id user_id)
  updated ← transaction (do
    request ←
        or_throw (← gets (find_by_id_for_building org_id building_id request_id))
          (not_found "Request not found")
    throw_if (not (may_become request.status status)) (conflict "Invalid status transition")
    throw_if (is_foreign_staff assignment_type user_id request) (forbidden "Forbidden")
    update_by_id request.id (move_to status now request))
  emit_event request_status_changed (record {
    request = to_event_request updated;
    actor_user_id = user_id;
    actor_is_resident = none;
    comment = none;
  })
  pure updated

-- `cancelBuildingRequest`
unfoldable pub cancel_building_request :
    Time → Option AuthenticatedUser → Uid → Uid → Action RequestView
unfolding assert_org_scope require_user_id assert_building_in_org find_by_id_for_building
    update_by_id emit_event to_event_request
cancel_building_request now user building_id request_id = do
  org_id ← assert_org_scope user
  user_id ← require_user_id user
  assert_building_in_org building_id org_id
  assignment_type ← gets (λ db. get_building_assignment_type db building_id user_id)
  has_permission ← gets (λ db. has_global_permission db user_id "requests.update_status")
  throw_if (not (is_some assignment_type) && not has_permission) (forbidden "Forbidden")
  throw_if (is_type staff assignment_type) (forbidden "Staff cannot cancel requests")
  updated ← transaction (do
    request ←
        or_throw (← gets (find_by_id_for_building org_id building_id request_id))
          (not_found "Request not found")
    throw_if (is_closed request.status) (conflict "Request cannot be canceled")
    update_by_id request.id (cancel now))
  emit_event request_canceled (record {
    request = to_event_request updated;
    actor_user_id = user_id;
    actor_is_resident = none;
    comment = none;
  })
  pure updated

-- `addBuildingComment`
unfoldable pub add_building_comment :
    Uid → Time → Option AuthenticatedUser → Uid → Uid → Text → Action RequestComment
unfolding assert_org_scope require_user_id assert_building_in_org find_by_id_for_building full_view
    create_comment emit_event to_event_request
add_building_comment id now user building_id request_id message = do
  org_id ← assert_org_scope user
  user_id ← require_user_id user
  assert_building_in_org building_id org_id
  assignment_type ← gets (λ db. get_building_assignment_type db building_id user_id)
  (request, comment) ← transaction (do
    request ←
        or_throw (← gets (find_by_id_for_building org_id building_id request_id))
          (not_found "Request not found")
    view ← gets (λ db. full_view db request)
    throw_if (is_foreign_staff assignment_type user_id request) (forbidden "Forbidden")
    comment ← create_comment (new_comment id now request.id org_id user_id message)
    pure (view, comment))
  emit_event request_commented (record {
    request = to_event_request request;
    actor_user_id = user_id;
    actor_is_resident = some false;
    comment = some (comment_snapshot comment);
  })
  pure comment

-- `listBuildingComments`
unfoldable pub list_building_comments :
    Option AuthenticatedUser → Uid → Uid → Action (List RequestComment)
unfolding assert_org_scope require_user_id assert_building_in_org find_by_id_for_building
    list_comments
list_building_comments user building_id request_id = do
  org_id ← assert_org_scope user
  user_id ← require_user_id user
  assert_building_in_org building_id org_id
  request ←
      or_throw (← gets (find_by_id_for_building org_id building_id request_id))
        (not_found "Request not found")
  assignment_type ← gets (λ db. get_building_assignment_type db building_id user_id)
  throw_if (is_foreign_staff assignment_type user_id request) (forbidden "Forbidden")
  gets (list_comments org_id request.id)

-- `addBuildingAttachments`
unfoldable pub add_building_attachments :
    Option AuthenticatedUser → Uid → Uid → List AttachmentDto → Action RequestView
unfolding assert_org_scope require_user_id assert_building_in_org find_by_id_for_building
    create_attachments full_view
add_building_attachments user building_id request_id attachments = do
  org_id ← assert_org_scope user
  user_id ← require_user_id user
  assert_building_in_org building_id org_id
  assignment_type ← gets (λ db. get_building_assignment_type db building_id user_id)
  transaction (do
    request ←
        or_throw (← gets (find_by_id_for_building org_id building_id request_id))
          (not_found "Request not found")
    throw_if (is_closed request.status) (conflict "Request is closed")
    throw_if (is_foreign_staff assignment_type user_id request) (forbidden "Forbidden")
    create_attachments request.id (map (attachment_input org_id user_id) attachments)
    updated ←
        or_throw (← gets (find_by_id_for_building org_id building_id request_id))
          (not_found "Request not found")
    gets (λ db. full_view db updated))
