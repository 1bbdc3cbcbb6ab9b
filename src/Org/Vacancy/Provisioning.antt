-- ===== src/Org/Vacancy/Provisioning.antt =====
-- The provisioning of a user keeps every unit single too.
use towerdesk_backend.Org.Vacancy.{OneActive, KeepsOneActive, OneActive-append, find-any}
use towerdesk_backend.Common.{
  String, Bool, true, false, Option, none, some, List, [], ◌∷◌, ◌++◌, map, ◌≡◌, refl, ◌∙◌, inl, inr,
  ◌⊎◌, nat_eq, any, find, Option-cases, Bool-cases, if◌then◌else◌, arith, subst, sym, or_default,
  is_some,
}
use towerdesk_backend.Store.{Uid, is_active_status, User, Occupancy}
use towerdesk_backend.Scope.{AuthenticatedUser, org_of, sub_of}
use towerdesk_backend.Org.Directory.{occupies, active_occupancy, find_unit_for_building}
use towerdesk_backend.Org.Provision.{
  provision_in_transaction, find_and_grant, check_actor, find_or_create, has_users_write,
  dedupe_strings, dedupe_assignments, TextOps, Draws, Grant, ResidentGrant, ProvisionUserDto,
  apply_org_roles, apply_building_assignments, ensure_admin_role_for, end_other_stays,
  apply_resident_grant, provision, apply_grants,
}
use towerdesk_backend.Org.Vacancy.Stays.{
  apply_org_roles_stays, ensure_admin_role_for_stays, apply_building_assignments_stays,
  find_or_create_stays, check_actor_stays, after_same, in_transaction-KeepsOneActive,
}

-- To end some stays makes no unit fuller.
module _ (f : Occupancy → Occupancy) (unit : (o : Occupancy) → (f o).unit_id ≡ o.unit_id)
    (ends : (o : Occupancy)
      → is_active_status (f o).status ≡ true
      → is_active_status o.status ≡ true) where
  any-ended :
      (unit_id : Uid) (os : List Occupancy)
      → any (occupies unit_id) os ≡ false
      → any (occupies unit_id) (map f os) ≡ false
  unfolding any
  any-ended unit_id [] h = refl
  any-ended unit_id (o ∷ os) h = ground (arith, any-ended unit_id os, unit o, ends o)

  OneActive-ended : (os : List Occupancy) → OneActive os → OneActive (map f os)
  OneActive-ended [] h = tt
  OneActive-ended (o ∷ os) h =
      ground (arith, OneActive-ended os h.1, any-ended o.unit_id os, unit o, ends o)

module _ (ops : TextOps) (draws : Draws) where
  moved : Uid → ResidentGrant → Uid → List Occupancy → List Occupancy
  moved user_id g unit_id os =
      if g.is_move then map (end_other_stays ops draws user_id g unit_id) os else os

  moved-OneActive :
      (user_id : Uid) (g : ResidentGrant) (unit_id : Uid) (os : List Occupancy)
      → OneActive os
      → OneActive (moved user_id g unit_id os)
  unfolding moved
  moved-OneActive user_id g unit_id os h = elim (Bool-cases g.is_move) [
    | inl m ↦ rw m (
        OneActive-ended (end_other_stays ops draws user_id g unit_id) (λ o. ground arith)
          (λ o. ground arith) os h)
    | inr m ↦ rw m h
  ]

  moved_vacant :
      (user_id : Uid) (g : ResidentGrant) (unit_id : Uid) (os : List Occupancy)
      → any (occupies unit_id) os ≡ false
      → any (occupies unit_id) (moved user_id g unit_id os) ≡ false
  unfolding moved
  moved_vacant user_id g unit_id os h = elim (Bool-cases g.is_move) [
    | inl m ↦ rw m (
        any-ended (end_other_stays ops draws user_id g unit_id) (λ o. ground arith)
          (λ o. ground arith) unit_id os h)
    | inr m ↦ rw m h
  ]

  -- What the grant leaves: the rows as they were, the moved ones, or those and one more.
  three_ways :
      (os os' ms : List Occupancy) (o : Occupancy)
      → OneActive os
      → OneActive ms
      → (os' ≡ os) ⊎ ((os' ≡ ms) ⊎ ((os' ≡ ms ++ o ∷ []) × (any (occupies o.unit_id) ms ≡ false)))
      → OneActive os'
  three_ways os os' ms o h k (inl e) = rw e h
  three_ways os os' ms o h k (inr (inl e)) = rw e k
  three_ways os os' ms o h k (inr (inr (e, v))) = rw e (OneActive-append ms o v k)

  apply_resident_grant-KeepsOneActive :
      (org_id user_id : Uid) (g : Option ResidentGrant)
      → KeepsOneActive (apply_resident_grant ops draws org_id user_id g)
  unfolding apply_resident_grant moved
  apply_resident_grant-KeepsOneActive org_id user_id none db h = h
  apply_resident_grant-KeepsOneActive org_id user_id (some g) db h =
      elim (Option-cases (find_unit_for_building g.building_id g.unit_id db)) [
        | inl absent ↦ subst OneActive (ground arith) h
        | inr (unit, eu) ↦
            three_ways db.occupancies _ (moved user_id g unit.id db.occupancies)
              (active_occupancy draws.occupancy_id draws.now g.building_id unit.id user_id) h
              (moved-OneActive user_id g unit.id db.occupancies h)
              (ground (
                arith,
                find-any (occupies unit.id) db.occupancies,
                moved_vacant user_id g unit.id db.occupancies,
              ))
      ]

  apply_grants-KeepsOneActive :
      (org_id : Uid) (is_linked : Bool) (role_keys : List String) (grants : List Grant)
      (g : Option ResidentGrant) (target : User)
      → KeepsOneActive (apply_grants ops draws org_id is_linked role_keys grants g target)
  unfolding apply_grants
  apply_grants-KeepsOneActive org_id is_linked role_keys grants g target db h =
      let (r₁, db₁) = apply_org_roles ops draws target.id role_keys db in
      let (r₂, db₂) = apply_building_assignments ops draws org_id target.id 0 grants db₁ in
      let (r₃, db₃) = ensure_admin_role_for ops draws target.id grants db₂ in
      let e₁ : db₁.occupancies ≡ db.occupancies =
        apply_org_roles_stays ops draws target.id role_keys db in
      let e₂ : db₂.occupancies ≡ db.occupancies =
        apply_building_assignments_stays ops draws org_id target.id 0 grants db₁ ∙ e₁ in
      let e₃ : db₃.occupancies ≡ db.occupancies =
        ensure_admin_role_for_stays ops draws target.id grants db₂ ∙ e₂ in
      let h₁ : OneActive db₁.occupancies = subst OneActive (sym e₁) h in
      let h₂ : OneActive db₂.occupancies = subst OneActive (sym e₂) h in
      let h₃ : OneActive db₃.occupancies = subst OneActive (sym e₃) h in
      ground (arith, apply_resident_grant-KeepsOneActive org_id target.id g db₃ h₃)

  find_and_grant-KeepsOneActive :
      (org_id email : Uid) (same_org : Bool) (role_keys : List String) (grants : List Grant)
      (dto : ProvisionUserDto)
      → KeepsOneActive (find_and_grant ops draws org_id email same_org role_keys grants dto)
  unfolding find_and_grant
  find_and_grant-KeepsOneActive org_id email same_org role_keys grants dto db h =
      let existing : Option User = find (λ u. ops.same_email u.email email) db.users in
      after_same (find_or_create ops draws org_id email same_org dto existing)
        (apply_grants ops draws org_id (is_some existing) role_keys grants dto.resident)
        (find_or_create_stays ops draws org_id email same_org dto existing)
        (apply_grants-KeepsOneActive org_id (is_some existing) role_keys grants dto.resident) db h

  provision_in_transaction-KeepsOneActive :
      (org_id : Uid) (users_write : Bool) (actor_id : Option Uid) (role_keys : List String)
      (grants : List Grant) (dto : ProvisionUserDto)
      → KeepsOneActive
          (provision_in_transaction ops draws org_id users_write actor_id role_keys grants dto)
  unfolding provision_in_transaction
  provision_in_transaction-KeepsOneActive org_id users_write actor_id role_keys grants dto =
      let same_org = or_default dto.require_same_org true in
      let email = ops.normalize_email dto.email in
      after_same (check_actor ops draws users_write actor_id role_keys grants dto.resident same_org)
        (λ _. find_and_grant ops draws org_id email same_org role_keys grants dto)
        (check_actor_stays ops draws users_write actor_id role_keys grants dto.resident same_org)
        (λ _. find_and_grant-KeepsOneActive org_id email same_org role_keys grants dto)

  -- If no unit has two active occupancies, none has after a user is provisioned: whatever is
  -- granted, whoever asks, and whether it succeeds or throws.
  pub provision-KeepsOneActive :
      (user : Option AuthenticatedUser) (dto : ProvisionUserDto)
      → KeepsOneActive (provision ops draws user dto)
  unfolding provision
  provision-KeepsOneActive user dto db h = elim (Option-cases (org_of user)) [
    | inl absent ↦ subst OneActive (ground arith) h
    | inr (o, e) ↦ ground (
      arith,
      in_transaction-KeepsOneActive
          (provision_in_transaction ops draws o (has_users_write db (sub_of user)) (sub_of user)
            (dedupe_strings ops dto.org_role_keys) (dedupe_assignments dto.building_assignments)
            dto)
          (provision_in_transaction-KeepsOneActive o (has_users_write db (sub_of user))
            (sub_of user) (dedupe_strings ops dto.org_role_keys)
            (dedupe_assignments dto.building_assignments) dto)
          db h,
    )
  ]
