-- ===== src/Maintenance/Evolution.antt =====
-- How the table of requests may change: rows change along the life cycle, new rows are open.
use towerdesk_backend.Common.{
  Bool, true, false, some, List, [], ◌∷◌, ◌++◌, ◌≡◌, refl, nat_eq, nat_beq, find, update, has_key,
  UniqueKeys, update_absent, find_other, arith, Bool-cases, inl, inr, nat_beq_iff, subst,
}
use towerdesk_backend.Store.{
  Uid, Status, open_, assigned, in_progress, completed, canceled, MaintenanceRequest,
}
use towerdesk_backend.Maintenance.Rules.{is_closed}
use towerdesk_backend.Maintenance.Repo.{request_id_of}

-- One change of status.
infix 40 ◌⟶◌ ◌⟶*◌
pub data ◌⟶◌ : Status → Status → Type 0 where
  assign : open_ ⟶ assigned
  reassign : assigned ⟶ assigned
  start : assigned ⟶ in_progress
  finish : in_progress ⟶ completed
  cancel_open : open_ ⟶ canceled
  cancel_assigned : assigned ⟶ canceled
  cancel_started : in_progress ⟶ canceled

pub data ◌⟶*◌ : Status → Status → Type 0 where
  stay : {s : Status} → s ⟶* s
  step : {s t u : Status} → s ⟶ t → t ⟶* u → s ⟶* u

pub ⟶*-trans : {s t u : Status} → s ⟶* t → t ⟶* u → s ⟶* u
⟶*-trans stay k = k
⟶*-trans (step e h) k = step e (⟶*-trans h k)

-- A completed or canceled request stays as it is.
pub completed_final : {s : Status} → completed ⟶* s → s ≡ completed
completed_final stay = refl
completed_final (step e _) = elim e [ ]

pub canceled_final : {s : Status} → canceled ⟶* s → s ≡ canceled
canceled_final stay = refl
canceled_final (step e _) = elim e [ ]

-- What a row may become: it keeps its key, organisation, building, unit, creator and creation
-- time, and moves along the life cycle.
pub record Follows (r r' : MaintenanceRequest) : Type 0 where
  pub id : r'.id ≡ r.id
  pub org_id : r'.org_id ≡ r.org_id
  pub building_id : r'.building_id ≡ r.building_id
  pub unit_id : r'.unit_id ≡ r.unit_id
  pub created_by_user_id : r'.created_by_user_id ≡ r.created_by_user_id
  pub created_at : r'.created_at ≡ r.created_at
  pub status : r.status ⟶* r'.status

pub Follows-refl : (r : MaintenanceRequest) → Follows r r
Follows-refl r = record {
  id = refl;
  org_id = refl;
  building_id = refl;
  unit_id = refl;
  created_by_user_id = refl;
  created_at = refl;
  status = stay;
}

pub Follows-trans : (r r' r'' : MaintenanceRequest) → Follows r r' → Follows r' r'' → Follows r r''
Follows-trans r r' r'' h k = record {
  id = cc;
  org_id = cc;
  building_id = cc;
  unit_id = cc;
  created_by_user_id = cc;
  created_at = cc;
  status = ⟶*-trans h.status k.status;
}

-- No row is lost, the rows that were there follow, and new rows stand behind them.
abbrev pub Evolves : List MaintenanceRequest → List MaintenanceRequest → Type 0
Evolves [] new = Unit
Evolves (r ∷ rs) [] = ⊥
Evolves (r ∷ rs) (r' ∷ rs') = Follows r r' × Evolves rs rs'

pub Evolves-refl : (rs : List MaintenanceRequest) → Evolves rs rs
Evolves-refl [] = tt
Evolves-refl (r ∷ rs) = (Follows-refl r, Evolves-refl rs)

pub Evolves-trans :
    (rs rs' rs'' : List MaintenanceRequest) → Evolves rs rs' → Evolves rs' rs'' → Evolves rs rs''
Evolves-trans [] rs' rs'' h k = tt
Evolves-trans (r ∷ rs) [] rs'' h k = absurd h
Evolves-trans (r ∷ rs) (r' ∷ rs') [] h k = absurd k
Evolves-trans (r ∷ rs) (r' ∷ rs') (r'' ∷ rs'') h k =
    (Follows-trans r r' r'' h.0 k.0, Evolves-trans rs rs' rs'' h.1 k.1)

pub Evolves-append : (rs new : List MaintenanceRequest) → Evolves rs (rs ++ new)
Evolves-append [] new = tt
Evolves-append (r ∷ rs) new = (Follows-refl r, Evolves-append rs new)

Evolves-update_head :
    (patch : MaintenanceRequest → MaintenanceRequest) (x : MaintenanceRequest)
    (xs : List MaintenanceRequest)
    → has_key request_id_of x.id xs ≡ false
    → Follows x (patch x)
    → Evolves (x ∷ xs) (update request_id_of x.id patch (x ∷ xs))
unfolding update
Evolves-update_head patch x xs u h =
    rw ((nat_beq_iff x.id x.id).1 refl, update_absent request_id_of x.id patch xs u)
      (h, Evolves-refl xs)

-- An update of the row that a query has found.
pub Evolves-update :
    (p : MaintenanceRequest → Bool) (patch : MaintenanceRequest → MaintenanceRequest)
    (rs : List MaintenanceRequest) (r : MaintenanceRequest)
    → UniqueKeys request_id_of rs
    → find p rs ≡ some r
    → Follows r (patch r)
    → Evolves rs (update request_id_of r.id patch rs)
unfolding find update
Evolves-update p patch [] r u f h = tt
Evolves-update p patch (x ∷ xs) r u f h = elim (Bool-cases (p x)) [
  | inl found ↦
      let e : x ≡ r = ground arith in
      subst (λ q. Follows q (patch q) → Evolves (x ∷ xs) (update request_id_of q.id patch (x ∷ xs)))
        e (Evolves-update_head patch x xs u.0) h
  | inr other ↦
      let f' : find p xs ≡ some r = ground arith in
      rw (find_other request_id_of x.id p xs f' u.0)
        (Follows-refl x, Evolves-update p patch xs r u.1 f' h)
]

abbrev pub by_id : Uid → MaintenanceRequest → Bool
by_id id r = nat_beq r.id id

-- A row that is found by its key is found by it later, and has followed.
pub Evolves-find :
    (id : Uid) (rs rs' : List MaintenanceRequest) (r : MaintenanceRequest)
    → Evolves rs rs'
    → find (by_id id) rs ≡ some r
    → (r' : MaintenanceRequest) × (find (by_id id) rs' ≡ some r') × Follows r r'
unfolding find
Evolves-find id [] rs' r h f = cc
Evolves-find id (x ∷ xs) [] r h f = absurd h
Evolves-find id (x ∷ xs) (y ∷ ys) r h f = elim (Bool-cases (by_id id x)) [
  | inl here ↦
      let e : x ≡ r = ground arith in (y, ground (arith, h.0.id), subst (λ q. Follows q y) e h.0)
  | inr on ↦
      let (r', f', k) = Evolves-find id xs ys r h.1 (ground arith) in
      (r', ground (arith, h.0.id), k)
]

-- Where the life cycle ends.
pub ⟶*-closed : (s t : Status) → is_closed s ≡ true → s ⟶* t → t ≡ s
⟶*-closed completed t h k = completed_final k
⟶*-closed canceled t h k = canceled_final k
⟶*-closed _ t h k = ground arith
