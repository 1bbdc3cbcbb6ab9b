-- ===== src/Org/Provision/Request.antt =====
-- users/org-users-provision.service.ts and its DTOs: the request, and the check of an actor without
-- the permission `users.write`.
use towerdesk_backend.Common.{
  ℕ, Bool, false, String, Option, none, some, List, [], ◌∷◌, map, ◌==◌, nat_eq, string_eq, ◌&&◌,
  ◌||◌, not, any, select, has, add, new_set, is_some, is_empty, if◌then◌else◌,
}
use towerdesk_backend.Store.{
  Uid, Time, Text, AssignmentType, manager, staff, building_admin, type_eq, BuildingAssignment,
  Occupancy, Db, Action, ◌>>=◌, ◌>>◌, gets, throw_if, forbidden,
}
use towerdesk_backend.Access.{effective_permissions}

-- `BuildingAssignmentGrantDto`
pub record Grant : Type 0 where
  pub building_id : Uid
  pub type : AssignmentType

-- `ResidentGrantDto`; `is_move` is `mode === 'MOVE'`
pub record ResidentGrant : Type 0 where
  pub building_id : Uid
  pub unit_id : Uid
  pub is_move : Bool

-- `ProvisionUserDto`, with `fail_if_exists` for `ifEmailExists === 'ERROR'`
pub record ProvisionUserDto : Type 0 where
  pub email : Uid
  pub name : Option Text
  pub password : Option Text
  pub send_invite : Bool
  pub org_role_keys : List String
  pub building_assignments : List Grant
  pub resident : Option ResidentGrant
  pub fail_if_exists : Bool
  pub require_same_org : Option Bool

pub record Provisioned : Type 0 where
  pub user_id : Uid
  pub created : Bool
  pub linked_existing : Bool
  pub org_role_keys : List String
  pub building_assignments : List BuildingAssignment
  pub resident : Option Occupancy

-- What the code calls: `trim` and `toLowerCase` on an email, the database's comparison of emails
-- in the mode `insensitive`, `trim` on a key and on a name, and argon2's hash.
pub record TextOps : Type 0 where
  pub normalize_email : Uid → Uid
  pub same_email : Uid → Uid → Bool
  pub trim_key : String → String
  pub trim : Text → Text
  pub hash : Text → Text

-- What the database and the random source draw.
pub record Draws : Type 0 where
  pub user_id : Uid
  pub assignment_id : ℕ → Uid
  pub occupancy_id : Uid
  pub now : Time
  pub temp_password : Text

-- `dedupeStrings`
abbrev pub dedupe_strings : TextOps → List String → List String
dedupe_strings ops values = new_set (map ops.trim_key values)

abbrev pub same_grant : Grant → Grant → Bool
same_grant a b = a.building_id == b.building_id && a.type == b.type

-- The loop of `dedupeAssignments`, with the grants whose keys were seen.
unfoldable pub dedupe_from : List Grant → List Grant → List Grant
dedupe_from seen [] = []
dedupe_from seen (g ∷ gs) =
    let is_seen = any (same_grant g) seen in
    let rest = dedupe_from (if is_seen then seen else g ∷ seen) gs in
    if is_seen then rest else g ∷ rest

-- `dedupeAssignments`
unfoldable pub dedupe_assignments : List Grant → List Grant
unfolding dedupe_from
dedupe_assignments grants = dedupe_from [] grants

-- `hasUsersWritePermission`
unfoldable pub has_users_write : Db → Option Uid → Bool
has_users_write db none = false
has_users_write db (some user_id) = has (effective_permissions db user_id) "users.write"

-- `targetBuildingIds`
unfoldable pub target_buildings : List Grant → Option ResidentGrant → List Uid
target_buildings grants resident =
    let ids = new_set (map (λ (g : Grant). g.building_id) grants) in
    elim resident [ none ↦ ids | some g ↦ add g.building_id ids ]

abbrev pub is_manager_type : AssignmentType → Bool
is_manager_type type = type == manager || type == building_admin

-- The actor manages the building, as MANAGER or as BUILDING_ADMIN.
abbrev pub manages : Db → Uid → Uid → Bool
manages db actor_id building_id =
    any (λ a. a.user_id == actor_id && (is_manager_type a.type && a.building_id == building_id))
      db.assignments

abbrev pub is_grantable : AssignmentType → Bool
is_grantable type = type == manager || type == staff

-- `assertManagerProvisioningAllowed`
unfoldable pub assert_manager_provisioning_allowed :
    Uid → List String → List Grant → Option ResidentGrant → Bool → Action (Unit {0})
unfolding target_buildings
assert_manager_provisioning_allowed actor_id role_keys grants resident require_same_org = do
  throw_if (not require_same_org) (forbidden "Managers must provision within their org")
  throw_if (not (is_empty role_keys)) (forbidden "Managers cannot assign org roles")
  throw_if (is_empty grants && not (is_some resident))
      (forbidden "Managers must assign a building role or resident")
  throw_if (any (λ (g : Grant). not (is_grantable g.type)) grants)
      (forbidden "Managers can only assign MANAGER or STAFF building roles")
  missing ←
      gets (λ db. select (λ id. not (manages db actor_id id)) (target_buildings grants resident))
  throw_if (not (is_empty missing)) (forbidden "Not assigned to target building")
