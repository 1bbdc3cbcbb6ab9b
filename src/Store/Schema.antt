-- ===== src/Store/Schema.antt =====
-- The tables, and the trace of the domain events that the services have emitted.
use towerdesk_backend.Common.{Bool, Option, List}
use towerdesk_backend.Store.Rows.{
  Uid, Text, Status, User, Building, UnitRow, BuildingAssignment, Occupancy, MaintenanceRequest,
  RequestComment, RequestAttachment, Role, Permission, RolePermission, UserRole, UserPermission,
}
use towerdesk_backend.Store.Notices.{Notification, Message}
use towerdesk_backend.Store.Estate.{Org, BuildingAmenity, UnitAmenity, UnitType, Owner}

pub record UnitRef : Type 0 where
  pub id : Uid
  pub label : Text

-- `MaintenanceRequestSnapshot`
pub record RequestSnapshot : Type 0 where
  pub id : Uid
  pub org_id : Uid
  pub building_id : Uid
  pub unit_id : Option Uid
  pub title : Text
  pub status : Option Status
  pub created_by_user_id : Uid
  pub assigned_to_user_id : Option Uid
  pub unit : Option UnitRef

-- `MaintenanceRequestCommentSnapshot`
pub record CommentSnapshot : Type 0 where
  pub id : Uid
  pub message : Text

-- `MAINTENANCE_REQUEST_EVENTS`
pub data EventName : Type 0 where
  request_created request_assigned request_status_changed request_commented request_canceled :
      EventName

-- `MaintenanceRequestEventPayload`
pub record EventPayload : Type 0 where
  pub request : RequestSnapshot
  pub actor_user_id : Uid
  pub actor_is_resident : Option Bool
  pub comment : Option CommentSnapshot

pub record Event : Type 0 where
  pub name : EventName
  pub payload : EventPayload

pub record Db : Type 0 where
  pub users : List User
  pub buildings : List Building
  pub units : List UnitRow
  pub assignments : List BuildingAssignment
  pub occupancies : List Occupancy
  pub requests : List MaintenanceRequest
  pub comments : List RequestComment
  pub attachments : List RequestAttachment
  pub roles : List Role
  pub permissions : List Permission
  pub role_permissions : List RolePermission
  pub user_roles : List UserRole
  pub user_permissions : List UserPermission
  -- emitted so far, the latest last
  pub events : List Event
  pub orgs : List Org
  pub building_amenities : List BuildingAmenity
  pub unit_amenities : List UnitAmenity
  pub unit_types : List UnitType
  pub owners : List Owner
  pub notifications : List Notification
  -- whether `setServer` has been called, and what was published since, the latest last
  pub has_server : Bool
  pub published : List Message
