-- ===== src/Org/Vacancy/Stays.antt =====
-- The steps of the provisioning that touch no occupancy.
use towerdesk_backend.Org.Vacancy.{OneActive, KeepsOneActive}
use towerdesk_backend.Common.{
  ℕ, ◌+◌, String, Bool, true, false, Option, none, some, List, [], ◌∷◌, ◌≡◌, refl, nat_eq, arith,
  subst, sym,
}
use towerdesk_backend.Store.{
  Uid, User, BuildingAssignment, Db, Action, Result, ok, err, transaction, ◌>>=◌,
}
use towerdesk_backend.Org.Provision.{
  check_actor, find_or_create, TextOps, Draws, Grant, ResidentGrant, ProvisionUserDto,
  assert_manager_provisioning_allowed, link_existing, create_target, apply_org_roles,
  upsert_assignment, apply_building_assignments, ensure_admin_role_for,
}

abbrev pub SameStays : {A : Type 0} → Action A → Type 0
SameStays m = (db : Db) → (m db).1.occupancies ≡ db.occupancies

manager_check_stays :
    (actor_id : Uid) (role_keys : List String) (grants : List Grant)
    (resident : Option ResidentGrant) (same_org : Bool)
    → SameStays (assert_manager_provisioning_allowed actor_id role_keys grants resident same_org)
unfolding assert_manager_provisioning_allowed
manager_check_stays actor_id role_keys grants resident same_org db = ground arith

module _ (ops : TextOps) (draws : Draws) where
  link_existing_stays :
      (org_id : Uid) (fail same_org : Bool) (target : User)
      → SameStays (link_existing ops draws org_id fail same_org target)
  unfolding link_existing
  link_existing_stays org_id fail same_org target db = ground arith

  create_target_stays :
      (org_id email : Uid) (dto : ProvisionUserDto)
      → SameStays (create_target ops draws org_id email dto)
  unfolding create_target
  create_target_stays org_id email dto db = ground arith

  pub apply_org_roles_stays :
      (user_id : Uid) (role_keys : List String)
      → SameStays (apply_org_roles ops draws user_id role_keys)
  unfolding apply_org_roles
  apply_org_roles_stays user_id role_keys db = ground arith

  upsert_assignment_stays : (row : BuildingAssignment) → SameStays (upsert_assignment ops draws row)
  unfolding upsert_assignment
  upsert_assignment_stays row db = ground arith

  pub ensure_admin_role_for_stays :
      (user_id : Uid) (grants : List Grant)
      → SameStays (ensure_admin_role_for ops draws user_id grants)
  unfolding ensure_admin_role_for
  ensure_admin_role_for_stays user_id grants db = ground arith

  pub apply_building_assignments_stays :
      (org_id user_id : Uid) (i : ℕ) (grants : List Grant)
      → SameStays (apply_building_assignments ops draws org_id user_id i grants)
  unfolding apply_building_assignments
  apply_building_assignments_stays org_id user_id i [] db = refl
  apply_building_assignments_stays org_id user_id i (g ∷ gs) db =
      grind (arith, apply_building_assignments_stays org_id user_id (i + 1) gs)

  pub find_or_create_stays :
      (org_id email : Uid) (same_org : Bool) (dto : ProvisionUserDto) (existing : Option User)
      → SameStays (find_or_create ops draws org_id email same_org dto existing)
  unfolding find_or_create
  find_or_create_stays org_id email same_org dto none db = create_target_stays org_id email dto db
  find_or_create_stays org_id email same_org dto (some u) db =
      link_existing_stays org_id dto.fail_if_exists same_org u db

  pub check_actor_stays :
      (users_write : Bool) (actor_id : Option Uid) (role_keys : List String) (grants : List Grant)
      (resident : Option ResidentGrant) (same_org : Bool)
      → SameStays (check_actor ops draws users_write actor_id role_keys grants resident same_org)
  unfolding check_actor
  check_actor_stays true actor_id role_keys grants resident same_org db = refl
  check_actor_stays false none role_keys grants resident same_org db = refl
  check_actor_stays false (some actor) role_keys grants resident same_org db =
      manager_check_stays actor role_keys grants resident same_org db

-- The invariant through one step that does not touch the occupancies.
pub after_same :
    {A B : Type 0} (m : Action A) (f : A → Action B)
    → SameStays m
    → ((a : A) → KeepsOneActive (f a))
    → KeepsOneActive (m >>= f)
after_same {A} {B} m f same keeps db h = go (m db) (same db)
  where
    go :
        (r : Result A × Db)
        → r.1.occupancies ≡ db.occupancies
        → OneActive
            (elim r.0 as (λ _. Result B × Db) [
              | ok a ↦ f a r.1
              | err e ↦ (err e, r.1)
            ]).1.occupancies
    go (ok a, db') e = keeps a db' (subst OneActive (sym e) h)
    go (err x, db') e = subst OneActive (sym e) h

pub in_transaction-KeepsOneActive :
    {A : Type 0} (m : Action A) → KeepsOneActive m → KeepsOneActive (transaction m)
in_transaction-KeepsOneActive {A} m keeps db h = go (m db) (keeps db h)
  where
    go :
        (r : Result A × Db)
        → OneActive r.1.occupancies
        → OneActive
            (elim r.0 as (λ _. Result A × Db) [
              | ok a ↦ (ok a, r.1)
              | err e ↦ (err e, db)
            ]).1.occupancies
    go (ok a, db') k = k
    go (err x, db') k = h
