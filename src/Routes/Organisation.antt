-- ===== src/Routes/Organisation.antt =====
-- The controllers of what belongs to the organisation or to the caller: unit-types, owners,
-- org-profile, maintenance-requests/resident-requests.controller.ts and notifications.
use towerdesk_backend.Common.{Bool, Option, none, some, List, [], ◌∷◌}
use towerdesk_backend.Store.{Uid, Time, Text, Action, throw, forbidden}
use towerdesk_backend.Scope.{AuthenticatedUser}
use towerdesk_backend.Estate.{
  CreateUnitTypeDto, CreateOwnerDto, list_active_unit_types, create_unit_type, list_owners,
  create_owner,
}
use towerdesk_backend.Accounts.{UpdateOrgProfileDto, get_profile, update_org_profile}
use towerdesk_backend.Maintenance.{
  Call, perform, done, CreateResidentRequestDto, UpdateResidentRequestDto,
}
use towerdesk_backend.Notifications.{
  Codec, ListQuery, list_for_user, mark_read, mark_all_read, dismiss, undismiss,
}
use towerdesk_backend.Routes.Pipeline.{
  Guard, jwt_auth, org_scope, permissions, Plain, guarded_by, plain_route, plain_request, with_user,
  serve,
}

pub data UnitTypesCall : Type 0 where
  list : UnitTypesCall
  create : Uid → Time → CreateUnitTypeDto → UnitTypesCall

pub data OwnersCall : Type 0 where
  list : Option Text → OwnersCall
  create : Uid → Time → CreateOwnerDto → OwnersCall

pub data OrgProfileCall : Type 0 where
  get : OrgProfileCall
  update : UpdateOrgProfileDto → OrgProfileCall

pub data ResidentRequestsCall : Type 0 where
  create : Uid → Time → CreateResidentRequestDto → ResidentRequestsCall
  list : ResidentRequestsCall
  get_by_id : Uid → ResidentRequestsCall
  update : Uid → UpdateResidentRequestDto → ResidentRequestsCall
  cancel : Time → Uid → ResidentRequestsCall
  add_comment : Uid → Time → Uid → Text → ResidentRequestsCall
  list_comments : Uid → ResidentRequestsCall

pub data NotificationsCall : Type 0 where
  list : ListQuery → NotificationsCall
  read_one : Time → Uid → NotificationsCall
  read_all : Time → NotificationsCall
  dismiss_one : Time → Uid → NotificationsCall
  undismiss_one : Uid → NotificationsCall

pub data OrgCall : Type 0 where
  unit_types : UnitTypesCall → OrgCall
  owners : OwnersCall → OrgCall
  org_profile : OrgProfileCall → OrgCall
  resident_requests : ResidentRequestsCall → OrgCall
  notifications : NotificationsCall → OrgCall

abbrev scoped : List Guard
scoped = jwt_auth ∷ org_scope ∷ []

abbrev guarded : List Guard
guarded = jwt_auth ∷ org_scope ∷ permissions ∷ []

unfoldable pub unit_types_route : UnitTypesCall → Plain
unit_types_route UnitTypesCall.list = guarded_by guarded ("unitTypes.read" ∷ [])
unit_types_route (UnitTypesCall.create _ _ _) = guarded_by guarded ("unitTypes.write" ∷ [])

unfoldable pub owners_route : OwnersCall → Plain
owners_route (OwnersCall.list _) = guarded_by guarded ("owners.read" ∷ [])
owners_route (OwnersCall.create _ _ _) = guarded_by guarded ("owners.write" ∷ [])

unfoldable pub org_profile_route : OrgProfileCall → Plain
org_profile_route get = guarded_by scoped []
org_profile_route (OrgProfileCall.update _) = guarded_by guarded ("org.profile.write" ∷ [])

abbrev pub org_route : OrgCall → Plain
org_route (unit_types c) = unit_types_route c
org_route (owners c) = owners_route c
org_route (org_profile c) = org_profile_route c
org_route (resident_requests c) = guarded_by scoped []
org_route (notifications c) = guarded_by scoped []

-- `@CurrentUser('orgId')`, of a user whom `org_scope` has let through
abbrev pub with_org :
    {A : Type 0} → Option AuthenticatedUser → (AuthenticatedUser → Uid → Action A) → Action A
with_org user f = with_user user (λ u. elim u.org_id [
  | none ↦ throw (forbidden "Org scope required")
  | some org_id ↦ f u org_id
])

unfoldable pub unit_types_handler : Option AuthenticatedUser → UnitTypesCall → Action (Unit {0})
unit_types_handler user UnitTypesCall.list = done (list_active_unit_types user)
unit_types_handler user (UnitTypesCall.create id now dto) = done (create_unit_type id now user dto)

unfoldable pub owners_handler :
    (Text → Text → Bool) → Option AuthenticatedUser → OwnersCall → Action (Unit {0})
owners_handler contains user (OwnersCall.list search) = done (list_owners contains user search)
owners_handler contains user (OwnersCall.create id now dto) = done (create_owner id now user dto)

unfoldable pub org_profile_handler : Option AuthenticatedUser → OrgProfileCall → Action (Unit {0})
org_profile_handler user get = with_org user (λ _ org_id. done (get_profile org_id))
org_profile_handler user (OrgProfileCall.update dto) =
    with_org user (λ _ org_id. done (update_org_profile org_id dto))

unfoldable pub resident_requests_handler :
    Option AuthenticatedUser → ResidentRequestsCall → Action (Unit {0})
unfolding perform
resident_requests_handler user (ResidentRequestsCall.create id now dto) =
    perform user (Call.create_resident id now dto)
resident_requests_handler user ResidentRequestsCall.list = perform user Call.list_resident
resident_requests_handler user (get_by_id r) = perform user (Call.get_resident r)
resident_requests_handler user (ResidentRequestsCall.update r dto) =
    perform user (Call.update_resident r dto)
resident_requests_handler user (cancel now r) = perform user (Call.cancel_resident now r)
resident_requests_handler user (add_comment id now r message) =
    perform user (Call.comment_resident id now r message)
resident_requests_handler user (list_comments r) = perform user (Call.comments_resident r)

-- `contains` is the search of the database, `codec` the coding of cursors.
module _ (contains : Text → Text → Bool) (codec : Codec) where
  unfoldable pub notifications_handler :
      Option AuthenticatedUser → NotificationsCall → Action (Unit {0})
  notifications_handler user (NotificationsCall.list query) =
      with_org user (λ u org_id. done (list_for_user codec u.sub org_id query))
  notifications_handler user (read_one now id) =
      with_org user (λ u org_id. mark_read now id u.sub org_id)
  notifications_handler user (read_all now) =
      with_org user (λ u org_id. mark_all_read now u.sub org_id)
  notifications_handler user (dismiss_one now id) =
      with_org user (λ u org_id. dismiss now id u.sub org_id)
  notifications_handler user (undismiss_one id) =
      with_org user (λ u org_id. undismiss id u.sub org_id)

  abbrev pub org_handler : Option AuthenticatedUser → OrgCall → Action (Unit {0})
  org_handler user (unit_types c) = unit_types_handler user c
  org_handler user (owners c) = owners_handler contains user c
  org_handler user (org_profile c) = org_profile_handler user c
  org_handler user (resident_requests c) = resident_requests_handler user c
  org_handler user (notifications c) = notifications_handler user c

  -- A call of one of these routes, as the application answers it.
  unfoldable pub answer_org : Option AuthenticatedUser → OrgCall → Action (Unit {0})
  unfolding serve
  answer_org user call =
      serve (plain_route (org_route call)) (plain_request user) (λ user. org_handler user call)
