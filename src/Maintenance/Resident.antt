-- ===== src/Maintenance/Resident.antt =====
-- maintenance-requests.service.ts: what a resident does, and the helpers of the service.
use towerdesk_backend.Common.{
  Bool, true, String, Option, none, some, List, [], ◌∷◌, ◌++◌, map, ◌==◌, nat_eq, ◌&&◌, not, has,
  string_eq, or_default, or_else, is_some, is_empty, ℕ,
}
use towerdesk_backend.Store.{
  Uid, Time, Text, open_, canceled, status_eq, MaintenanceRequest, RequestComment, RequestSnapshot,
  CommentSnapshot, EventName, request_created, request_canceled, request_commented, EventPayload,
  Db, Action, ◌>>=◌, ◌>>◌, pure, gets, modify, transaction, or_throw, throw_if, forbidden,
  not_found, conflict, bad_request,
}
use towerdesk_backend.Access.{effective_permissions}
use towerdesk_backend.Scope.{AuthenticatedUser, assert_org_scope, require_user_id}
use towerdesk_backend.Maintenance.Rules.{is_closed, normalize_priority, normalize_type}
use towerdesk_backend.Maintenance.Repo.{
  AttachmentInput, RequestView, create_request_with_attachments, list_by_creator,
  find_by_id_for_creator, update_by_id, full_view, is_uid, create_comment, list_comments,
  find_assigned_active_occupancy, org_of_building,
}

-- `toEventRequest`
unfoldable pub to_event_request : RequestView → RequestSnapshot
to_event_request v = record {
  id = v.request.id;
  org_id = v.request.org_id;
  building_id = v.request.building_id;
  unit_id = v.request.unit_id;
  title = v.request.title;
  status = some v.request.status;
  created_by_user_id = v.request.created_by_user_id;
  assigned_to_user_id = v.request.assigned_to_user_id;
  unit = v.unit;
}

-- `emitEvent`
unfoldable pub emit_event : EventName → EventPayload → Action (Unit {0})
emit_event name payload =
    modify
      (λ db. record db { events = db.events ++ record { name = name; payload = payload } ∷ [] })

-- `hasGlobalPermission`
unfoldable pub has_global_permission : Db → Uid → String → Bool
has_global_permission db user_id permission = has (effective_permissions db user_id) permission

pub record AttachmentDto : Type 0 where
  pub file_name : Text
  pub mime_type : Text
  pub size_bytes : ℕ
  pub url : Text

abbrev pub attachment_input : Uid → Uid → AttachmentDto → AttachmentInput
attachment_input org_id user_id a = record {
  org_id = org_id;
  uploaded_by_user_id = user_id;
  file_name = a.file_name;
  mime_type = a.mime_type;
  size_bytes = a.size_bytes;
  url = a.url;
}

-- `CreateResidentRequestDto`
pub record CreateResidentRequestDto : Type 0 where
  pub title : Text
  pub description : Option Text
  pub type : Option String
  pub priority : Option String
  pub attachments : Option (List AttachmentDto)

-- The row that `createResidentRequest` asks for; the other columns are `null`.
abbrev pub new_request :
    Uid → Time → Uid → Uid → Uid → Uid → CreateResidentRequestDto → MaintenanceRequest
new_request id now org_id user_id building_id unit_id dto = record {
  id = id;
  org_id = org_id;
  building_id = building_id;
  unit_id = some unit_id;
  created_by_user_id = user_id;
  title = dto.title;
  description = dto.description;
  status = open_;
  type = normalize_type dto.type;
  priority = normalize_priority dto.priority;
  assigned_to_user_id = none;
  assigned_at = none;
  completed_at = none;
  canceled_at = none;
  created_at = now;
}

-- `createResidentRequest`
unfoldable pub create_resident_request :
    Uid → Time → Option AuthenticatedUser → CreateResidentRequestDto → Action RequestView
unfolding assert_org_scope require_user_id find_assigned_active_occupancy org_of_building
    create_request_with_attachments emit_event to_event_request
create_resident_request id now user dto = do
  org_id ← assert_org_scope user
  user_id ← require_user_id user
  request ← transaction (do
    occupancy ←
        or_throw (← gets (find_assigned_active_occupancy user_id))
          (forbidden "Active occupancy required")
    throw_if (not (is_uid org_id (← gets (org_of_building occupancy.building_id))))
        (forbidden "Active occupancy required")
    create_request_with_attachments
        (new_request id now org_id user_id occupancy.building_id occupancy.unit_id dto)
        (map (attachment_input org_id user_id) (or_default dto.attachments [])))
  emit_event request_created (record {
    request = to_event_request request;
    actor_user_id = user_id;
    actor_is_resident = none;
    comment = none;
  })
  pure request

-- `listResidentRequests`
unfoldable pub list_resident_requests : Option AuthenticatedUser → Action (List RequestView)
unfolding assert_org_scope require_user_id list_by_creator
list_resident_requests user = do
  org_id ← assert_org_scope user
  user_id ← require_user_id user
  gets (list_by_creator org_id user_id)

-- `getResidentRequest`
unfoldable pub get_resident_request : Option AuthenticatedUser → Uid → Action RequestView
unfolding assert_org_scope require_user_id find_by_id_for_creator full_view
get_resident_request user request_id = do
  org_id ← assert_org_scope user
  user_id ← require_user_id user
  request ←
      or_throw (← gets (find_by_id_for_creator org_id user_id request_id))
        (not_found "Request not found")
  gets (λ db. full_view db request)

-- `UpdateResidentRequestDto`
pub record UpdateResidentRequestDto : Type 0 where
  pub title : Option Text
  pub description : Option Text

-- `!dto.title`
abbrev pub is_blank : Option Text → Bool
is_blank none = true
is_blank (some text) = is_empty text

abbrev pub edit :
    UpdateResidentRequestDto → MaintenanceRequest → MaintenanceRequest → MaintenanceRequest
edit dto request row = record row {
  title = or_default dto.title request.title;
  description = or_else dto.description request.description;
}

-- `updateResidentRequest`
unfoldable pub update_resident_request :
    Option AuthenticatedUser → Uid → UpdateResidentRequestDto → Action RequestView
unfolding assert_org_scope require_user_id find_by_id_for_creator update_by_id
update_resident_request user request_id dto = do
  org_id ← assert_org_scope user
  user_id ← require_user_id user
  request ←
      or_throw (← gets (find_by_id_for_creator org_id user_id request_id))
        (not_found "Request not found")
  throw_if (not (request.status == open_)) (conflict "Request cannot be edited")
  throw_if (is_blank dto.title && not (is_some dto.description)) (bad_request "No changes provided")
  update_by_id request.id (edit dto request)

abbrev pub cancel : Time → MaintenanceRequest → MaintenanceRequest
cancel now row = record row { status = canceled; canceled_at = some now }

-- `cancelResidentRequest`
unfoldable pub cancel_resident_request : Time → Option AuthenticatedUser → Uid → Action RequestView
unfolding assert_org_scope require_user_id find_by_id_for_creator update_by_id emit_event
    to_event_request
cancel_resident_request now user request_id = do
  org_id ← assert_org_scope user
  user_id ← require_user_id user
  updated ← transaction (do
    request ←
        or_throw (← gets (find_by_id_for_creator org_id user_id request_id))
          (not_found "Request not found")
    throw_if (is_closed request.status) (conflict "Request cannot be canceled")
    update_by_id request.id (cancel now))
  emit_event request_canceled (record {
    request = to_event_request updated;
    actor_user_id = user_id;
    actor_is_resident = none;
    comment = none;
  })
  pure updated

abbrev pub new_comment : Uid → Time → Uid → Uid → Uid → Text → RequestComment
new_comment id now request_id org_id user_id message = record {
  id = id;
  request_id = request_id;
  org_id = org_id;
  author_user_id = user_id;
  message = message;
  created_at = now;
}

abbrev pub comment_snapshot : RequestComment → CommentSnapshot
comment_snapshot c = record { id = c.id; message = c.message }

-- `addResidentComment`
unfoldable pub add_resident_comment :
    Uid → Time → Option AuthenticatedUser → Uid → Text → Action RequestComment
unfolding assert_org_scope require_user_id find_by_id_for_creator full_view create_comment
    emit_event to_event_request
add_resident_comment id now user request_id message = do
  org_id ← assert_org_scope user
  user_id ← require_user_id user
  (request, comment) ← transaction (do
    request ←
        or_throw (← gets (find_by_id_for_creator org_id user_id request_id))
          (not_found "Request not found")
    view ← gets (λ db. full_view db request)
    throw_if (is_closed request.status) (conflict "Request is closed")
    comment ← create_comment (new_comment id now request.id org_id user_id message)
    pure (view, comment))
  emit_event request_commented (record {
    request = to_event_request request;
    actor_user_id = user_id;
    actor_is_resident = some true;
    comment = some (comment_snapshot comment);
  })
  pure comment

-- `listResidentComments`
unfoldable pub list_resident_comments :
    Option AuthenticatedUser → Uid → Action (List RequestComment)
unfolding assert_org_scope require_user_id find_by_id_for_creator list_comments
list_resident_comments user request_id = do
  org_id ← assert_org_scope user
  user_id ← require_user_id user
  request ←
      or_throw (← gets (find_by_id_for_creator org_id user_id request_id))
        (not_found "Request not found")
  gets (list_comments org_id request.id)
