-- ===== src/Maintenance/Repo.antt =====
-- maintenance-requests.repo.ts. Ids and times are drawn by the database and the clock: they are
-- arguments. Of the joined rows only the unit and the attachments are kept.
use towerdesk_backend.Common.{
  ℕ, Bool, true, Option, none, some, List, [], ◌∷◌, ◌++◌, map, ◌==◌, nat_eq, ◌&&◌, leb, find,
  select, update, sort_by, is_empty, if◌then◌else◌, false,
}
use towerdesk_backend.Store.{
  Uid, Text, Status, status_eq, staff, type_eq, is_active_status, User, UnitRow, BuildingAssignment,
  Occupancy, MaintenanceRequest, RequestComment, RequestAttachment, UnitRef, Db, Action, ◌>>=◌,
  ◌>>◌, pure, gets, modify, or_throw, record_not_found,
}

-- `AttachmentInput`
pub record AttachmentInput : Type 0 where
  pub org_id : Uid
  pub uploaded_by_user_id : Uid
  pub file_name : Text
  pub mime_type : Text
  pub size_bytes : ℕ
  pub url : Text

-- A request with what `include` joins; `attachments` is `none` where it is not included.
pub record RequestView : Type 0 where
  pub request : MaintenanceRequest
  pub unit : Option UnitRef
  pub attachments : Option (List RequestAttachment)

abbrev pub unit_ref : Option UnitRow → Option UnitRef
unit_ref none = none
unit_ref (some u) = some (record { id = u.id; label = u.label })

abbrev pub unit_of : Db → Option Uid → Option UnitRef
unit_of db none = none
unit_of db (some unit_id) = unit_ref (find (λ u. u.id == unit_id) db.units)

abbrev pub attachments_of : Db → Uid → List RequestAttachment
attachments_of db request_id = select (λ a. a.request_id == request_id) db.attachments

unfoldable pub full_view : Db → MaintenanceRequest → RequestView
full_view db r = record {
  request = r;
  unit = unit_of db r.unit_id;
  attachments = some (attachments_of db r.id);
}

-- the view that `updateById` returns
unfoldable pub short_view : Db → MaintenanceRequest → RequestView
short_view db r = record { request = r; unit = unit_of db r.unit_id; attachments = none }

abbrev pub attachment_row : Uid → AttachmentInput → RequestAttachment
attachment_row request_id a = record {
  request_id = request_id;
  org_id = a.org_id;
  uploaded_by_user_id = a.uploaded_by_user_id;
  file_name = a.file_name;
  mime_type = a.mime_type;
  size_bytes = a.size_bytes;
  url = a.url;
}

-- `createAttachments`
unfoldable pub create_attachments : Uid → List AttachmentInput → Action (Unit {0})
create_attachments request_id attachments =
    if is_empty attachments
    then pure tt
    else modify (λ db. record db {
      attachments = db.attachments ++ map (attachment_row request_id) attachments;
    })

-- `createRequestWithAttachments`: the view is read before the attachments are written.
unfoldable pub create_request_with_attachments :
    MaintenanceRequest → List AttachmentInput → Action RequestView
unfolding create_attachments full_view
create_request_with_attachments row attachments = do
  modify (λ db. record db { requests = db.requests ++ row ∷ [] })
  request ← gets (λ db. full_view db row)
  create_attachments row.id attachments
  pure request

-- `orderBy: { createdAt: 'desc' }` and `'asc'`
abbrev pub newer : MaintenanceRequest → MaintenanceRequest → Bool
newer a b = leb b.created_at a.created_at

abbrev pub older : RequestComment → RequestComment → Bool
older a b = leb a.created_at b.created_at

-- `listByCreator`
unfoldable pub list_by_creator : Uid → Uid → Db → List RequestView
unfolding full_view
list_by_creator org_id user_id db = map (full_view db) (
    sort_by newer (select (λ r. r.org_id == org_id && r.created_by_user_id == user_id) db.requests))

abbrev pub for_creator : Uid → Uid → Uid → MaintenanceRequest → Bool
for_creator org_id user_id request_id r =
    r.id == request_id && (r.org_id == org_id && r.created_by_user_id == user_id)

-- `findByIdForCreator`
unfoldable pub find_by_id_for_creator : Uid → Uid → Uid → Db → Option MaintenanceRequest
find_by_id_for_creator org_id user_id request_id db =
    find (for_creator org_id user_id request_id) db.requests

abbrev pub for_building : Uid → Uid → Uid → MaintenanceRequest → Bool
for_building org_id building_id request_id r =
    r.id == request_id && (r.org_id == org_id && r.building_id == building_id)

-- `findByIdForBuilding`
unfoldable pub find_by_id_for_building : Uid → Uid → Uid → Db → Option MaintenanceRequest
find_by_id_for_building org_id building_id request_id db =
    find (for_building org_id building_id request_id) db.requests

abbrev pub request_id_of : MaintenanceRequest → Uid
request_id_of r = r.id

-- `updateById`: the row changes by `patch`, and is returned. A missing row is Prisma's P2025.
unfoldable pub update_by_id : Uid → (MaintenanceRequest → MaintenanceRequest) → Action RequestView
unfolding short_view
update_by_id request_id patch = do
  row ← or_throw (← gets (λ db. find (λ r. r.id == request_id) db.requests)) record_not_found
  modify (λ db. record db { requests = update request_id_of request_id patch db.requests })
  gets (λ db. short_view db (patch row))

abbrev pub is_status : Option Status → Status → Bool
is_status none s = true
is_status (some t) s = s == t

abbrev pub is_uid : Uid → Option Uid → Bool
is_uid a none = false
is_uid a (some b) = b == a

abbrev pub is_assignee : Option Uid → Option Uid → Bool
is_assignee none assignee = true
is_assignee (some user_id) assignee = is_uid user_id assignee

-- `listByBuilding`
unfoldable pub list_by_building : Uid → Uid → Option Status → Option Uid → Db → List RequestView
unfolding full_view
list_by_building org_id building_id status assigned_to_user_id db = map (full_view db) (
    sort_by newer (
      select
        (λ r.
          r.org_id == org_id
          && (r.building_id == building_id
              && (is_status status r.status
                  && is_assignee assigned_to_user_id r.assigned_to_user_id)))
        db.requests))

-- `createComment`
unfoldable pub create_comment : RequestComment → Action RequestComment
create_comment row = do modify (λ db. record db { comments = db.comments ++ row ∷ [] }); pure row

-- `listComments`
unfoldable pub list_comments : Uid → Uid → Db → List RequestComment
list_comments org_id request_id db =
    sort_by older (select (λ c. c.org_id == org_id && c.request_id == request_id) db.comments)

-- `findAssignedActiveOccupancy`
unfoldable pub find_assigned_active_occupancy : Uid → Db → Option Occupancy
find_assigned_active_occupancy user_id db =
    find (λ o. o.resident_user_id == user_id && is_active_status o.status) db.occupancies

-- `occupancy.building.orgId`; the foreign key makes sure that the building is there
unfoldable pub org_of_building : Uid → Db → Option Uid
org_of_building building_id db = elim (find (λ b. b.id == building_id) db.buildings) [
  | none ↦ none
  | some b ↦ some b.org_id
]

-- `findUserById`
unfoldable pub find_user_by_id : Uid → Db → Option User
find_user_by_id user_id db = find (λ u. u.id == user_id) db.users

-- `findBuildingAssignment`
unfoldable pub find_staff_assignment : Uid → Uid → Db → Option BuildingAssignment
find_staff_assignment building_id user_id db =
    find (λ a. a.building_id == building_id && (a.user_id == user_id && a.type == staff))
      db.assignments
