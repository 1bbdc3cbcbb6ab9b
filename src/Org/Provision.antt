-- ===== src/Org/Provision.antt =====
-- users/org-users-provision.service.ts. Ids, times and the temporary password are drawn outside;
-- `SELECT … FOR UPDATE` changes nothing here, where one request runs at a time.
mod Request
mod Steps
use towerdesk_backend.Common.{
  ℕ, Bool, true, false, String, Option, none, some, List, [], ◌∷◌, ◌++◌, map, ◌==◌, nat_eq,
  string_eq, ◌&&◌, ◌||◌, not, any, find, select, includes, has, add, new_set, update, length, ltb,
  is_some, is_empty, or_default, or_else, if◌then◌else◌, ◌+◌,
}
use towerdesk_backend.Store.{
  Uid, Time, Text, AssignmentType, manager, staff, building_admin, type_eq, is_active_status, ended,
  User, BuildingAssignment, Occupancy, Role, UserRole, Db, Action, ◌>>=◌, ◌>>◌, pure, gets, modify,
  transaction, or_throw, throw_if, throw, not_found, bad_request, conflict, forbidden,
}
use towerdesk_backend.Access.{effective_permissions, find_role_by_key, create_user_roles}
use towerdesk_backend.Scope.{AuthenticatedUser, assert_org_scope, sub_of, truthy, find_building}
use towerdesk_backend.Org.Directory.{
  find_unit_for_building, create_user, occupies, find_active_occupancy, active_occupancy,
  create_occupancy,
}
use towerdesk_backend.Org.Occupancies.{is_in_org}
use towerdesk_backend.Org.Residents.{new_user}
use towerdesk_backend.Org.Assignments.{same_assignment}
unfoldable pub use Request.*
unfoldable pub use Steps.*

module _ (ops : TextOps) (draws : Draws) where
  -- The target of the grants: the user with the email, or a new one.
  unfoldable pub find_or_create : Uid → Uid → Bool → ProvisionUserDto → Option User → Action User
  find_or_create org_id email require_same_org dto (some u) =
      link_existing ops draws org_id dto.fail_if_exists require_same_org u
  find_or_create org_id email require_same_org dto none = create_target ops draws org_id email dto

  -- The grants, in the order of the source, and the answer.
  unfoldable pub apply_grants :
      Uid → Bool → List String → List Grant → Option ResidentGrant → User → Action Provisioned
  apply_grants org_id is_linked role_keys grants resident_grant target = do
    roles ← apply_org_roles ops draws target.id role_keys
    assignments ← apply_building_assignments ops draws org_id target.id 0 grants
    ensure_admin_role_for ops draws target.id grants
    resident ← apply_resident_grant ops draws org_id target.id resident_grant
    pure (record {
      user_id = target.id;
      created = not is_linked;
      linked_existing = is_linked;
      org_role_keys = roles;
      building_assignments = assignments;
      resident = resident;
    })

  -- The check of an actor without the permission `users.write`.
  unfoldable pub check_actor :
      Bool → Option Uid → List String → List Grant → Option ResidentGrant → Bool → Action (Unit {0})
  check_actor true actor_id role_keys grants resident require_same_org = pure tt
  check_actor false actor_id role_keys grants resident require_same_org = do
    actor ← or_throw actor_id (forbidden "Unauthorized")
    assert_manager_provisioning_allowed actor role_keys grants resident require_same_org

  -- The transaction after its check of the actor.
  unfoldable pub find_and_grant :
      Uid → Uid → Bool → List String → List Grant → ProvisionUserDto → Action Provisioned
  unfolding find_or_create
  find_and_grant org_id email require_same_org role_keys grants dto = do
    existing ← gets (λ db. find (λ u. ops.same_email u.email email) db.users)
    target ← find_or_create org_id email require_same_org dto existing
    apply_grants org_id (is_some existing) role_keys grants dto.resident target

  -- The body of the transaction.
  unfoldable pub provision_in_transaction :
      Uid → Bool → Option Uid → List String → List Grant → ProvisionUserDto → Action Provisioned
  unfolding check_actor find_and_grant
  provision_in_transaction org_id users_write actor_id role_keys grants dto = do
    let require_same_org = or_default dto.require_same_org true
    let email = ops.normalize_email dto.email
    check_actor users_write actor_id role_keys grants dto.resident require_same_org
    find_and_grant org_id email require_same_org role_keys grants dto

  -- `OrgUsersProvisionService.provision`
  unfoldable pub provision : Option AuthenticatedUser → ProvisionUserDto → Action Provisioned
  unfolding assert_org_scope
  provision user dto = do
    org_id ← assert_org_scope user
    let role_keys = dedupe_strings ops dto.org_role_keys
    let grants = dedupe_assignments dto.building_assignments
    users_write ← gets (λ db. has_users_write db (sub_of user))
    throw_if (includes role_keys "super_admin") (bad_request "super_admin role cannot be assigned")
    transaction (provision_in_transaction org_id users_write (sub_of user) role_keys grants dto)
