-- ===== src/Notifications/Recipients.antt =====
-- notification-recipient.resolver.ts. A set is a list in insertion order.
use towerdesk_backend.Common.{
  Bool, false, Option, none, some, List, [], ◌∷◌, map, ◌==◌, nat_eq, string_eq, ◌&&◌, ◌||◌, any,
  select, add, delete, new_set, is_empty, if◌then◌else◌, add_all, String,
}
use towerdesk_backend.Store.{Uid, User, BuildingAssignment, Role, Db, RequestSnapshot, type_eq}
use towerdesk_backend.Scope.{truthy}
use towerdesk_backend.Org.{find_user, is_in_org, is_manager_type}

-- `user && user.isActive && user.orgId === orgId`
abbrev pub is_member_row : Uid → Option User → Bool
is_member_row org_id none = false
is_member_row org_id (some x) = x.is_active && is_in_org org_id x.org_id

-- The loop of `getBuildingManagersAndAdmins` keeps the assignment.
abbrev pub is_manager_row : Db → Uid → Uid → BuildingAssignment → Bool
is_manager_row db org_id building_id a =
    (a.building_id == building_id && is_manager_type a.type)
    && is_member_row org_id (find_user a.user_id db)

-- `getBuildingManagersAndAdmins`
unfoldable pub get_building_managers_and_admins : Db → Uid → Uid → List Uid
unfolding find_user
get_building_managers_and_admins db org_id building_id = new_set (
    map (λ (a : BuildingAssignment). a.user_id)
      (select (is_manager_row db org_id building_id) db.assignments))

abbrev pub is_admin_key : String → Bool
is_admin_key key = key == "org_admin" || key == "admin"

-- The user has one of the roles.
abbrev pub has_admin_role : Db → Uid → Bool
has_admin_role db user_id =
    any
      (λ ur.
        ur.user_id == user_id
        && any (λ (r : Role). r.id == ur.role_id && is_admin_key r.key) db.roles)
      db.user_roles

abbrev pub is_admin_row : Db → Uid → User → Bool
is_admin_row db org_id x = (is_in_org org_id x.org_id && x.is_active) && has_admin_role db x.id

-- `getOrgAdmins`
unfoldable pub get_org_admins : Db → Uid → List Uid
get_org_admins db org_id =
    new_set (map (λ (x : User). x.id) (select (is_admin_row db org_id) db.users))

-- `resolveOpsRecipients`
unfoldable pub resolve_ops_recipients : Db → Uid → Uid → List Uid
unfolding get_building_managers_and_admins get_org_admins
resolve_ops_recipients db org_id building_id =
    let recipients = get_building_managers_and_admins db org_id building_id in
    if is_empty recipients then get_org_admins db org_id else recipients

-- `finalizeRecipients`
unfoldable pub finalize_recipients : List Uid → Uid → List Uid
finalize_recipients recipients actor_user_id =
    let others = delete actor_user_id recipients in
    if is_empty others then add actor_user_id others else others

-- `if (request.assignedToUserId) recipients.add(request.assignedToUserId)`
abbrev pub add_present : Option Uid → List Uid → List Uid
add_present id recipients = elim (truthy id) [
  | none ↦ recipients
  | some user_id ↦ add user_id recipients
]

module _ (db : Db) (request : RequestSnapshot) (actor_user_id : Uid) where
  -- `resolveForRequestCreated`
  unfoldable pub resolve_for_request_created : List Uid
  unfolding resolve_ops_recipients finalize_recipients
  resolve_for_request_created =
      finalize_recipients (resolve_ops_recipients db request.org_id request.building_id)
        actor_user_id

  -- `resolveForRequestAssigned`
  unfoldable pub resolve_for_request_assigned : List Uid
  unfolding resolve_ops_recipients finalize_recipients
  resolve_for_request_assigned =
      finalize_recipients
        (add_all (resolve_ops_recipients db request.org_id request.building_id)
          (add request.created_by_user_id (add_present request.assigned_to_user_id [])))
        actor_user_id

  -- `resolveForRequestStatusChanged`
  unfoldable pub resolve_for_request_status_changed : List Uid
  unfolding resolve_ops_recipients finalize_recipients
  resolve_for_request_status_changed =
      finalize_recipients
        (add_all (resolve_ops_recipients db request.org_id request.building_id)
          (add_present request.assigned_to_user_id (request.created_by_user_id ∷ [])))
        actor_user_id

  -- `resolveForRequestCommented`; whether the actor is a resident is not looked at
  unfoldable pub resolve_for_request_commented : Bool → List Uid
  unfolding resolve_ops_recipients finalize_recipients
  resolve_for_request_commented actor_is_resident =
      finalize_recipients
        (add_all (resolve_ops_recipients db request.org_id request.building_id)
          (add_present request.assigned_to_user_id (request.created_by_user_id ∷ [])))
        actor_user_id

  -- `resolveForRequestCanceled`
  unfoldable pub resolve_for_request_canceled : List Uid
  unfolding resolve_ops_recipients finalize_recipients
  resolve_for_request_canceled =
      finalize_recipients
        (add_present request.assigned_to_user_id
          (resolve_ops_recipients db request.org_id request.building_id))
        actor_user_id
