-- ===== src/Maintenance/Lifecycle/Steps.antt =====
-- What each writing call does to the table of requests.
use towerdesk_backend.Maintenance.Evolution.{
  Evolves-refl, Evolves, ◌⟶◌, Follows, ◌⟶*◌, Evolves-update, step, assign, start, cancel_open, stay,
  cancel_assigned, finish, cancel_started, Evolves-append,
}
use towerdesk_backend.Common.{
  nat_eq, Bool, true, false, Option, some, List, [], ◌∷◌, ◌++◌, ◌≡◌, ◌⊎◌, inl, inr, refl, find,
  update, has_key, UniqueKeys, update-UniqueKeys, append-UniqueKeys, Option-cases, arith,
  Bool-cases, ap, ◌==◌, ◌&&◌, ◌||◌,
}
use towerdesk_backend.Store.{
  status_eq, Uid, Time, Status, open_, assigned, in_progress, completed, canceled,
  MaintenanceRequest, Db, is_active_status,
}
use towerdesk_backend.Scope.{AuthenticatedUser, org_of, sub_of}
use towerdesk_backend.Maintenance.Rules.{may_become, is_closed}
use towerdesk_backend.Maintenance.Repo.{request_id_of, for_creator, for_building}
use towerdesk_backend.Maintenance.Resident.{
  CreateResidentRequestDto, UpdateResidentRequestDto, new_request, edit, cancel,
  create_resident_request, update_resident_request, cancel_resident_request,
}
use towerdesk_backend.Maintenance.Staff.{
  assign_to, move_to, assign_request, update_request_status, cancel_building_request,
}

-- The new table evolves from the old one, and keys stay unique.
abbrev pub Keeps : List MaintenanceRequest → List MaintenanceRequest → Type 0
Keeps rs rs' = Evolves rs rs' × UniqueKeys request_id_of rs'

abbrev IsPatch : (MaintenanceRequest → MaintenanceRequest) → Type 0
IsPatch patch = (x : MaintenanceRequest) → request_id_of (patch x) ≡ request_id_of x

-- The call has left the table alone, or has patched the row that it had found.
pub Keeps-patch :
    (p : MaintenanceRequest → Bool) (patch : MaintenanceRequest → MaintenanceRequest)
    (rs rs' : List MaintenanceRequest) (r : MaintenanceRequest)
    → IsPatch patch
    → UniqueKeys request_id_of rs
    → find p rs ≡ some r
    → Follows r (patch r)
    → (rs' ≡ rs) ⊎ (rs' ≡ update request_id_of r.id patch rs)
    → Keeps rs rs'
Keeps-patch p patch rs rs' r k u f h (inl e) = rw e (Evolves-refl rs, u)
Keeps-patch p patch rs rs' r k u f h (inr e) =
    rw e (Evolves-update p patch rs r u f h, update-UniqueKeys request_id_of r.id patch rs k u)

-- The call has left the table alone, or has added a row with a fresh key.
pub Keeps-append :
    (row : MaintenanceRequest) (rs rs' : List MaintenanceRequest)
    → UniqueKeys request_id_of rs
    → has_key request_id_of row.id rs ≡ false
    → (rs' ≡ rs) ⊎ (rs' ≡ rs ++ row ∷ [])
    → Keeps rs rs'
Keeps-append row rs rs' u fresh (inl e) = rw e (Evolves-refl rs, u)
Keeps-append row rs rs' u fresh (inr e) =
    rw e (Evolves-append rs (row ∷ []), append-UniqueKeys request_id_of rs row fresh u)

pub Keeps-same :
    (rs rs' : List MaintenanceRequest) → UniqueKeys request_id_of rs → rs' ≡ rs → Keeps rs rs'
Keeps-same rs rs' u e = rw e (Evolves-refl rs, u)

cancelable : (s : Status) → is_closed s ≡ false → s ⟶* canceled
cancelable open_ h = step cancel_open stay
cancelable assigned h = step cancel_assigned stay
cancelable in_progress h = step cancel_started stay
cancelable completed h = cc
cancelable canceled h = cc

may_become-⟶ : (s t : Status) → may_become s t ≡ true → s ⟶ t
unfolding may_become
may_become-⟶ open_ assigned h = assign
may_become-⟶ assigned in_progress h = start
may_become-⟶ in_progress completed h = finish
may_become-⟶ _ _ h = ground arith

assignable : (s : Status) → (s ≡ open_) ⊎ (s ≡ assigned) → s ⟶* assigned
assignable open_ h = step assign stay
assignable assigned h = stay
assignable in_progress h = ground arith
assignable completed h = ground arith
assignable canceled h = ground arith

-- A patch that writes only the status and what goes with it.
pub Follows-status :
    (r r' : MaintenanceRequest)
    → r' ≡ record r {
      title = r'.title;
      description = r'.description;
      status = r'.status;
      assigned_to_user_id = r'.assigned_to_user_id;
      assigned_at = r'.assigned_at;
      completed_at = r'.completed_at;
      canceled_at = r'.canceled_at;
    }
    → r.status ⟶* r'.status
    → Follows r r'
Follows-status r r' e h = record {
  id = ap (λ x. x.id) e;
  org_id = ap (λ x. x.org_id) e;
  building_id = ap (λ x. x.building_id) e;
  unit_id = ap (λ x. x.unit_id) e;
  created_by_user_id = ap (λ x. x.created_by_user_id) e;
  created_at = ap (λ x. x.created_at) e;
  status = h;
}

module _ (db : Db) (u : UniqueKeys request_id_of db.requests)
    (user : Option AuthenticatedUser) where
  pub update_request_status-Keeps :
      (now : Time) (building_id request_id : Uid) (status : Status)
      → Keeps db.requests
          (update_request_status now user building_id request_id status db).1.requests
  unfolding update_request_status
  update_request_status-Keeps now building_id request_id status =
      elim (Option-cases (org_of user)) [
        | inl absent ↦ Keeps-same db.requests _ u (ground arith)
        | inr (o, found) ↦
            elim (Option-cases (find (for_building o building_id request_id) db.requests)) [
              | inl missing ↦ Keeps-same db.requests _ u (ground arith)
              | inr (r, e) ↦ elim (Bool-cases (may_become r.status status)) [
                | inl may ↦
                    Keeps-patch (for_building o building_id request_id) (move_to status now r)
                      db.requests _ r (λ x. refl) u e
                      (Follows-status r _ refl (step (may_become-⟶ _ _ may) stay)) (ground arith)
                | inr not_allowed ↦ Keeps-same db.requests _ u (ground arith)
              ]
            ]
      ]

  pub assign_request-Keeps :
      (now : Time) (building_id request_id staff_user_id : Uid)
      → Keeps db.requests
          (assign_request now user building_id request_id staff_user_id db).1.requests
  unfolding assign_request
  assign_request-Keeps now building_id request_id staff_user_id =
      elim (Option-cases (org_of user)) [
        | inl absent ↦ Keeps-same db.requests _ u (ground arith)
        | inr (o, found) ↦
            elim (Option-cases (find (for_building o building_id request_id) db.requests)) [
              | inl missing ↦ Keeps-same db.requests _ u (ground arith)
              | inr (r, e) ↦ elim (Option-cases (find (λ x. x.id == staff_user_id) db.users)) [
                | inl nobody ↦ Keeps-same db.requests _ u (ground arith)
                | inr (s, es) ↦ elim (Bool-cases (r.status == open_ || r.status == assigned)) [
                  | inl may ↦
                      Keeps-patch (for_building o building_id request_id) (assign_to s.id now)
                        db.requests _ r (λ x. refl) u e
                        (Follows-status r _ refl (assignable r.status (ground arith)))
                        (ground arith)
                  | inr closed ↦ Keeps-same db.requests _ u (ground arith)
                ]
              ]
            ]
      ]

  pub cancel_building_request-Keeps :
      (now : Time) (building_id request_id : Uid)
      → Keeps db.requests (cancel_building_request now user building_id request_id db).1.requests
  unfolding cancel_building_request
  cancel_building_request-Keeps now building_id request_id = elim (Option-cases (org_of user)) [
    | inl absent ↦ Keeps-same db.requests _ u (ground arith)
    | inr (o, found) ↦
        elim (Option-cases (find (for_building o building_id request_id) db.requests)) [
          | inl missing ↦ Keeps-same db.requests _ u (ground arith)
          | inr (r, e) ↦ elim (Bool-cases (is_closed r.status)) [
            | inl closed ↦ Keeps-same db.requests _ u (ground arith)
            | inr may ↦
                Keeps-patch (for_building o building_id request_id) (cancel now) db.requests _ r
                  (λ x. refl) u e (Follows-status r _ refl (cancelable r.status may)) (ground arith)
          ]
        ]
  ]

  pub cancel_resident_request-Keeps :
      (now : Time) (request_id : Uid)
      → Keeps db.requests (cancel_resident_request now user request_id db).1.requests
  unfolding cancel_resident_request
  cancel_resident_request-Keeps now request_id = elim (Option-cases (org_of user)) [
    | inl absent ↦ Keeps-same db.requests _ u (ground arith)
    | inr (o, found) ↦ elim (Option-cases (sub_of user)) [
      | inl nobody ↦ Keeps-same db.requests _ u (ground arith)
      | inr (s, es) ↦ elim (Option-cases (find (for_creator o s request_id) db.requests)) [
        | inl missing ↦ Keeps-same db.requests _ u (ground arith)
        | inr (r, e) ↦ elim (Bool-cases (is_closed r.status)) [
          | inl closed ↦ Keeps-same db.requests _ u (ground arith)
          | inr may ↦
              Keeps-patch (for_creator o s request_id) (cancel now) db.requests _ r (λ x. refl) u e
                (Follows-status r _ refl (cancelable r.status may)) (ground arith)
        ]
      ]
    ]
  ]

  pub update_resident_request-Keeps :
      (request_id : Uid) (dto : UpdateResidentRequestDto)
      → Keeps db.requests (update_resident_request user request_id dto db).1.requests
  unfolding update_resident_request
  update_resident_request-Keeps request_id dto = elim (Option-cases (org_of user)) [
    | inl absent ↦ Keeps-same db.requests _ u (ground arith)
    | inr (o, found) ↦ elim (Option-cases (sub_of user)) [
      | inl nobody ↦ Keeps-same db.requests _ u (ground arith)
      | inr (s, es) ↦ elim (Option-cases (find (for_creator o s request_id) db.requests)) [
        | inl missing ↦ Keeps-same db.requests _ u (ground arith)
        | inr (r, e) ↦
            Keeps-patch (for_creator o s request_id) (edit dto r) db.requests _ r (λ x. refl) u e
              (Follows-status r _ refl stay) (ground arith)
      ]
    ]
  ]

  pub create_resident_request-Keeps :
      (id : Uid) (now : Time) (dto : CreateResidentRequestDto)
      → has_key request_id_of id db.requests ≡ false
      → Keeps db.requests (create_resident_request id now user dto db).1.requests
  unfolding create_resident_request
  create_resident_request-Keeps id now dto fresh = elim (Option-cases (org_of user)) [
    | inl absent ↦ Keeps-same db.requests _ u (ground arith)
    | inr (o, found) ↦ elim (Option-cases (sub_of user)) [
      | inl nobody ↦ Keeps-same db.requests _ u (ground arith)
      | inr (s, es) ↦
          elim (Option-cases
            (find (λ x. x.resident_user_id == s && is_active_status x.status) db.occupancies)) [
              | inl missing ↦ Keeps-same db.requests _ u (ground arith)
              | inr (oc, e) ↦
                  Keeps-append (new_request id now o s oc.building_id oc.unit_id dto) db.requests _
                    u fresh (ground arith)
            ]
    ]
  ]
