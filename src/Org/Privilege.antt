-- ===== src/Org/Privilege.antt =====
-- What an actor without the permission `users.write` can provision.
pub mod Targets
mod Roles
use towerdesk_backend.Org.Privilege.Targets.{concerns, targets_lem, all_managed, any-dedupe}
use towerdesk_backend.Org.Privilege.Roles.{find_and_grant_roles}
use towerdesk_backend.Common.{
  ℕ, ◌+◌, String, Bool, true, false, not, ◌||◌, Option, none, some, List, [], ◌∷◌, map, ◌≡◌, refl,
  ◌∙◌, inl, inr, ◌⊎◌, ◌==◌, nat_eq, string_eq, any, find, select, Option-cases, arith, sym,
  or_default, is_some, is_empty, new_set, includes, has-new_set, beq_true, has-add,
}
use towerdesk_backend.Store.{
  Uid, manager, staff, building_admin, type_eq, User, BuildingAssignment, Db, Action, Result, Error,
  ok, err, ◌>>=◌, AssignmentType, type_beq,
}
use towerdesk_backend.Scope.{AuthenticatedUser, org_of, sub_of}
use towerdesk_backend.Org.Provision.{
  Provisioned, provision_in_transaction, check_actor, find_and_grant, find_or_create,
  has_users_write, dedupe_strings, dedupe_assignments, dedupe_from, same_grant, TextOps, Draws,
  Grant, ResidentGrant, ProvisionUserDto, assert_manager_provisioning_allowed, target_buildings,
  manages, is_grantable, link_existing, create_target, apply_org_roles, upsert_assignment,
  apply_building_assignments, ensure_admin_role_for, apply_resident_grant, provision, apply_grants,
}

module _ (ops : TextOps) (draws : Draws) where
  -- Nothing is left of a request to provision that throws.
  pub provision-IsAtomic :
      (user : Option AuthenticatedUser) (dto : ProvisionUserDto) (db : Db) (e : Error)
      → (provision ops draws user dto db).0 ≡ err e
      → (provision ops draws user dto db).1 ≡ db
  unfolding provision
  provision-IsAtomic user dto db e h = ground arith

-- The check lets the actor through only if all of this holds.
manager_check-ok :
    (actor : Uid) (keys : List String) (grants : List Grant) (resident : Option ResidentGrant)
    (same : Bool) (db : Db)
    → (assert_manager_provisioning_allowed actor keys grants resident same db).0 ≡ ok tt
    → (is_empty keys ≡ true)
      × (any (λ (g : Grant). not (is_grantable g.type)) grants ≡ false)
      × (is_empty (select (λ id. not (manages db actor id)) (target_buildings grants resident))
          ≡ true)
unfolding assert_manager_provisioning_allowed
manager_check-ok actor keys grants resident same db h = ground arith

manager_check-same :
    (actor : Uid) (keys : List String) (grants : List Grant) (resident : Option ResidentGrant)
    (same : Bool) (db : Db)
    → (assert_manager_provisioning_allowed actor keys grants resident same db).1 ≡ db
unfolding assert_manager_provisioning_allowed
manager_check-same actor keys grants resident same db = ground arith

module _ (ops : TextOps) (draws : Draws) where
  -- The actor whom the check lets through.
  transaction-ok :
      (org_id : Uid) (actor : Option Uid) (keys : List String) (grants : List Grant)
      (dto : ProvisionUserDto) (db : Db) (p : Provisioned)
      → (provision_in_transaction ops draws org_id false actor keys grants dto db).0 ≡ ok p
      → (a : Uid) × (actor ≡ some a)
        × (is_empty keys ≡ true)
        × (any (λ (g : Grant). not (is_grantable g.type)) grants ≡ false)
        × (is_empty (select (λ id. not (manages db a id)) (target_buildings grants dto.resident))
            ≡ true)
        × ((provision_in_transaction ops draws org_id false actor keys grants dto db).1.user_roles
            ≡ db.user_roles)
  unfolding provision_in_transaction check_actor
  transaction-ok org_id none keys grants dto db p h = ground arith
  transaction-ok org_id (some a) keys grants dto db p h =
      let same = or_default dto.require_same_org true in
      let checks = manager_check-ok a keys grants dto.resident same db (ground arith) in
      let roles =
        find_and_grant_roles ops draws org_id (ops.normalize_email dto.email) same keys grants dto
          checks.0 checks.1 db in
      (
        a,
        refl,
        checks.0,
        checks.1,
        checks.2,
        ground (arith, manager_check-same a keys grants dto.resident same db, roles),
      )

  -- For an actor without the permission `users.write`, a request to provision succeeds only if
  -- the actor is signed in and manages every building that it concerns, and if its building roles
  -- are MANAGER and STAFF only; and it gives no role to anyone.
  pub provision-IsWithinPrivilege :
      (user : Option AuthenticatedUser) (dto : ProvisionUserDto) (db : Db) (p : Provisioned)
      → has_users_write db (sub_of user) ≡ false
      → (provision ops draws user dto db).0 ≡ ok p
      → (a : Uid) × (sub_of user ≡ some a)
        × ((b : Uid) → concerns dto b ≡ true → manages db a b ≡ true)
        × (any (λ (g : Grant). not (is_grantable g.type)) dto.building_assignments ≡ false)
        × ((provision ops draws user dto db).1.user_roles ≡ db.user_roles)
  unfolding provision
  provision-IsWithinPrivilege user dto db p h k = elim (Option-cases (org_of user)) [
    | inl absent ↦ ground (arith, absent)
    | inr (o, e) ↦
        let keys = dedupe_strings ops dto.org_role_keys in
        let grants = dedupe_assignments dto.building_assignments in
        let (a, ea, _, ok_types, ok_ids, roles) =
          transaction-ok o (sub_of user) keys grants dto db p (ground (arith, e)) in
        (
          a,
          ea,
          (λ b c.
              all_managed (manages db a) (target_buildings grants dto.resident) b ok_ids
                (targets_lem dto b ∙ c)),
          sym (
                any-dedupe (λ g. not (is_grantable g.type))
                  (λ g h e. ground (arith, type_beq g.type h.type)) dto.building_assignments)
              ∙ ok_types,
          ground (arith, e, roles),
        )
  ]
