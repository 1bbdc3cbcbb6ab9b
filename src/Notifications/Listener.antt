-- ===== src/Notifications/Listener.antt =====
-- notifications.listener.ts: the handlers of the events of the maintenance requests.
use towerdesk_backend.Common.{
  false, String, Option, none, some, List, ◌++◌, leb, length, take, trim, codes, is_empty,
  or_default, if◌then◌else◌,
}
use towerdesk_backend.Store.{
  Uid, Text, Status, open_, assigned, in_progress, completed, canceled, Db, RequestSnapshot,
  EventName, EventPayload, Event, Action, ◌>>=◌, gets,
}
use towerdesk_backend.Store.Notices.{NotificationType, NotificationData, NotificationResponse}
use towerdesk_backend.Notifications.Repo.{NoticeDraws}
use towerdesk_backend.Notifications.Service.{NoticeInput, create_for_users}
use towerdesk_backend.Notifications.Recipients.{
  resolve_for_request_created, resolve_for_request_assigned, resolve_for_request_status_changed,
  resolve_for_request_commented, resolve_for_request_canceled,
}

-- The value of the enum in the database.
abbrev pub status_text : Status → Text
status_text open_ = codes "OPEN"
status_text assigned = codes "ASSIGNED"
status_text in_progress = codes "IN_PROGRESS"
status_text completed = codes "COMPLETED"
status_text canceled = codes "CANCELED"

-- `buildRequestBody`
unfoldable pub build_request_body : RequestSnapshot → Text
build_request_body request = elim request.unit [
  | none ↦ request.title
  | some unit ↦
      if is_empty unit.label
      then request.title
      else codes "Unit " ++ (unit.label ++ (codes ": " ++ request.title))
]

-- `buildNotificationData`
unfoldable pub build_notification_data : EventPayload → NotificationData
build_notification_data payload = record {
  request_id = payload.request.id;
  building_id = payload.request.building_id;
  unit_id = elim payload.request.unit [ none ↦ payload.request.unit_id | some unit ↦ some unit.id ];
  actor_user_id = payload.actor_user_id;
  status = payload.request.status;
  comment_id = elim payload.comment [ none ↦ none | some comment ↦ some comment.id ];
}

-- `truncateMessage`
unfoldable pub truncate_message : Text → Text
truncate_message message =
    let trimmed = trim message in
    if leb (length trimmed) 80 then trimmed else take 77 trimmed ++ codes "..."

-- The input that every handler gives to `createForUsers`.
abbrev pub notice : EventPayload → List Uid → NotificationType → String → Option Text → NoticeInput
notice payload recipients type title body = record {
  org_id = payload.request.org_id;
  user_ids = recipients;
  type = type;
  title = title;
  body = body;
  payload = build_notification_data payload;
}

-- What a handler tells, and whom.
unfoldable pub notice_of : Db → Event → NoticeInput
unfolding build_request_body truncate_message resolve_for_request_created
    resolve_for_request_assigned resolve_for_request_status_changed resolve_for_request_commented
    resolve_for_request_canceled build_notification_data
notice_of db event =
    let payload = event.payload in
    let request = payload.request in
    elim event.name [
      | EventName.request_created ↦
          notice payload (resolve_for_request_created db request payload.actor_user_id)
            NotificationType.request_created "New maintenance request"
            (some (build_request_body request))
      | EventName.request_assigned ↦
          notice payload (resolve_for_request_assigned db request payload.actor_user_id)
            NotificationType.request_assigned "Request assigned" (some (build_request_body request))
      | EventName.request_status_changed ↦
          notice payload (resolve_for_request_status_changed db request payload.actor_user_id)
            NotificationType.request_status_changed "Request status updated"
            (elim request.status [ none ↦ none | some status ↦ some (status_text status) ])
      | EventName.request_commented ↦
          notice payload
            (resolve_for_request_commented db request payload.actor_user_id
              (or_default payload.actor_is_resident false))
            NotificationType.request_commented "New comment"
            (elim payload.comment [
              | none ↦ none
              | some comment ↦ some (truncate_message comment.message)
            ])
      | EventName.request_canceled ↦
          notice payload (resolve_for_request_canceled db request payload.actor_user_id)
            NotificationType.request_canceled "Request canceled" (some (build_request_body request))
    ]

-- The handler of an event.
unfoldable pub handle_event : NoticeDraws → Event → Action (List NotificationResponse)
unfolding notice_of create_for_users
handle_event draws event = do input ← gets (λ db. notice_of db event); create_for_users draws input
