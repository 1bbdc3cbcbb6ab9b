-- ===== src/Org/Privilege/Roles.antt =====
-- Without role keys and building admins, the provisioning gives no roles.
use towerdesk_backend.Common.{
  ℕ, ◌+◌, String, Bool, true, false, not, Option, none, some, List, [], ◌∷◌, ◌≡◌, refl, ◌∙◌, inl,
  inr, ◌⊎◌, ◌==◌, nat_eq, string_eq, any, find, arith, is_some, is_empty,
}
use towerdesk_backend.Store.{
  Uid, manager, staff, building_admin, type_eq, User, BuildingAssignment, Db, Action, Result, ok,
  err, ◌>>=◌, AssignmentType,
}
use towerdesk_backend.Org.Provision.{
  find_and_grant, find_or_create, TextOps, Draws, Grant, ResidentGrant, ProvisionUserDto,
  is_grantable, link_existing, create_target, apply_org_roles, upsert_assignment,
  apply_building_assignments, ensure_admin_role_for, apply_resident_grant, apply_grants,
}

-- A call that leaves the roles of the users alone.
abbrev SameRoles : {A : Type 0} → Action A → Type 0
SameRoles m = (db : Db) → (m db).1.user_roles ≡ db.user_roles

no_admins :
    (grants : List Grant)
    → any (λ (g : Grant). not (is_grantable g.type)) grants ≡ false
    → any (λ (g : Grant). g.type == building_admin) grants ≡ false
unfolding any
no_admins [] h = refl
no_admins (g ∷ gs) h = elim (type-cases g.type) [
  | inl e ↦ ground (arith, e, no_admins gs)
  | inr (inl e) ↦ ground (arith, e, no_admins gs)
  | inr (inr e) ↦ ground (arith, e, no_admins gs)
]
  where
    type-cases : (t : AssignmentType) → (t ≡ manager) ⊎ ((t ≡ staff) ⊎ (t ≡ building_admin))
    type-cases manager = inl refl
    type-cases staff = inr (inl refl)
    type-cases building_admin = inr (inr refl)

module _ (ops : TextOps) (draws : Draws) where
  upsert_assignment_roles : (row : BuildingAssignment) → SameRoles (upsert_assignment ops draws row)
  unfolding upsert_assignment
  upsert_assignment_roles row db = ground arith

  assignments_roles :
      (org_id user_id : Uid) (i : ℕ) (grants : List Grant)
      → SameRoles (apply_building_assignments ops draws org_id user_id i grants)
  unfolding apply_building_assignments
  assignments_roles org_id user_id i [] db = refl
  assignments_roles org_id user_id i (g ∷ gs) db =
      grind (arith, assignments_roles org_id user_id (i + 1) gs)

  resident_roles :
      (org_id user_id : Uid) (g : Option ResidentGrant)
      → SameRoles (apply_resident_grant ops draws org_id user_id g)
  unfolding apply_resident_grant
  resident_roles org_id user_id none db = refl
  resident_roles org_id user_id (some g) db = ground arith

  find_or_create_roles :
      (org_id email : Uid) (same : Bool) (dto : ProvisionUserDto) (u : Option User)
      → SameRoles (find_or_create ops draws org_id email same dto u)
  unfolding find_or_create link_existing create_target
  find_or_create_roles org_id email same dto none db = ground arith
  find_or_create_roles org_id email same dto (some u) db = ground arith

  apply_grants_roles :
      (org_id : Uid) (linked : Bool) (keys : List String) (grants : List Grant)
      (g : Option ResidentGrant) (u : User)
      → is_empty keys ≡ true
      → any (λ (g : Grant). not (is_grantable g.type)) grants ≡ false
      → SameRoles (apply_grants ops draws org_id linked keys grants g u)
  unfolding apply_grants apply_org_roles ensure_admin_role_for
  apply_grants_roles org_id linked keys grants g u h k db = ground (
    arith,
    no_admins grants k,
    assignments_roles org_id u.id 0 grants db,
    resident_roles org_id u.id g (apply_building_assignments ops draws org_id u.id 0 grants db).1,
  )

  pub find_and_grant_roles :
      (org_id email : Uid) (same : Bool) (keys : List String) (grants : List Grant)
      (dto : ProvisionUserDto)
      → is_empty keys ≡ true
      → any (λ (g : Grant). not (is_grantable g.type)) grants ≡ false
      → SameRoles (find_and_grant ops draws org_id email same keys grants dto)
  unfolding find_and_grant
  find_and_grant_roles org_id email same keys grants dto h k db =
      let existing : Option User = find (λ u. ops.same_email u.email email) db.users in
      after (find_or_create ops draws org_id email same dto existing)
        (apply_grants ops draws org_id (is_some existing) keys grants dto.resident)
        (find_or_create_roles org_id email same dto existing)
        (λ u. apply_grants_roles org_id (is_some existing) keys grants dto.resident u h k) db
    where
      after :
          {A B : Type 0} (m : Action A) (f : A → Action B)
          → SameRoles m
          → ((a : A) → SameRoles (f a))
          → SameRoles (m >>= f)
      after {A} {B} m f same keeps db = go (m db) (same db)
        where
          go :
              (r : Result A × Db)
              → r.1.user_roles ≡ db.user_roles
              → (elim r.0 as (λ _. Result B × Db) [
                | ok a ↦ f a r.1
                | err e ↦ (err e, r.1)
              ]).1.user_roles
                ≡ db.user_roles
          go (ok a, db') e = keeps a db' ∙ e
          go (err x, db') e = e
