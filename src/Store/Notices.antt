-- ===== src/Store/Notices.antt =====
-- The notifications of prisma/schema.prisma, and what is published to the sockets of the users.
use towerdesk_backend.Common.{String, Option}
use towerdesk_backend.Store.Rows.{Uid, Time, Text, Status}

-- `NotificationTypeEnum`
pub data NotificationType : Type 0 where
  request_created request_assigned request_status_changed request_commented request_canceled :
      NotificationType

-- What `buildNotificationData` puts into the column `data`; an absent `status` or `commentId` is
-- left out of the JSON.
pub record NotificationData : Type 0 where
  pub request_id : Uid
  pub building_id : Uid
  pub unit_id : Option Uid
  pub actor_user_id : Uid
  pub status : Option Status
  pub comment_id : Option Uid

pub record Notification : Type 0 where
  pub id : Uid
  pub org_id : Uid
  pub recipient_user_id : Uid
  pub type : NotificationType
  pub title : String
  pub body : Option Text
  pub payload : NotificationData
  pub read_at : Option Time
  pub dismissed_at : Option Time
  pub created_at : Time

-- `NotificationResponseDto`
pub record NotificationResponse : Type 0 where
  pub id : Uid
  pub type : NotificationType
  pub title : String
  pub body : Option Text
  pub payload : NotificationData
  pub read_at : Option Time
  pub dismissed_at : Option Time
  pub created_at : Time

-- `RealtimeEvent`, each with its payload
pub data RealtimeEvent : Type 0 where
  notification_new : NotificationResponse → RealtimeEvent
  notification_read : Uid → Time → RealtimeEvent
  notifications_read_all : Time → RealtimeEvent
  notification_dismiss : Uid → Time → RealtimeEvent
  notification_undismiss : Uid → RealtimeEvent

-- An event in the room of a user of an organisation.
pub record Message : Type 0 where
  pub org_id : Uid
  pub user_id : Uid
  pub event : RealtimeEvent
