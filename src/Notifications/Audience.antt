-- ===== src/Notifications/Audience.antt =====
-- Who is told of an event, in terms of the rows of the tables.
use towerdesk_backend.Common.{
  Bool, true, false, not, ◌&&◌, ◌||◌, Option, none, some, List, [], ◌∷◌, map, ◌≡◌, refl, ap, ◌∙◌,
  inl, inr, ◌==◌, nat_eq, any, select, includes, has, add, add_all, delete, new_set, is_empty,
  has-add, has-delete, has-new_set, beq_true, arith, Bool-cases, if◌then◌else◌, has-add_all,
  Option-cases, beq_self,
}
use towerdesk_backend.Store.{Uid, User, BuildingAssignment, Db, EventName, Event}
use towerdesk_backend.Scope.{truthy}
use towerdesk_backend.Notifications.Recipients.{
  is_manager_row, is_admin_row, resolve_ops_recipients, finalize_recipients, add_present,
}
use towerdesk_backend.Notifications.Listener.{notice_of}

module _ {A : Type 0} (key : A → Uid) (p : A → Bool) where
  includes-keys :
      (xs : List A) (u : Uid) → includes (map key (select p xs)) u ≡ any (λ x. p x && key x == u) xs
  unfolding select any includes
  includes-keys [] u = refl
  includes-keys (x ∷ xs) u =
      ground (arith, includes-keys xs u, beq_true u (key x), beq_true (key x) u)

  is_empty-keys : (xs : List A) → is_empty (map key (select p xs)) ≡ not (any p xs)
  unfolding select any
  is_empty-keys [] = refl
  is_empty-keys (x ∷ xs) = ground (arith, is_empty-keys xs)

is_empty-new_set : (values : List Uid) → is_empty (new_set values) ≡ is_empty values
unfolding new_set add_all includes
is_empty-new_set [] = refl
is_empty-new_set (v ∷ vs) = go (new_set (v ∷ vs)) (has-new_set (v ∷ vs) v)
  where
    go : (set : List Uid) → has set v ≡ includes (v ∷ vs) v → is_empty set ≡ false
    go [] h = ground (arith, beq_self v, h)
    go (x ∷ set) h = refl

module _ (db : Db) (org_id building_id : Uid) where
  -- The user manages or administers the building, as an active user of the organisation.
  abbrev pub is_ops_manager : Uid → Bool
  is_ops_manager u =
      any (λ a. is_manager_row db org_id building_id a && a.user_id == u) db.assignments

  -- The building has someone who does.
  abbrev pub has_ops_manager : Bool
  has_ops_manager = any (is_manager_row db org_id building_id) db.assignments

  -- The user administers the organisation.
  abbrev pub is_org_admin : Uid → Bool
  is_org_admin u = any (λ x. is_admin_row db org_id x && x.id == u) db.users

  abbrev pub is_ops : Uid → Bool
  is_ops u = if has_ops_manager then is_ops_manager u else is_org_admin u

  has-ops : (u : Uid) → has (resolve_ops_recipients db org_id building_id) u ≡ is_ops u
  unfolding resolve_ops_recipients
  has-ops u = ground (
    arith,
    has-new_set
        (map (λ (a : BuildingAssignment). a.user_id)
          (select (is_manager_row db org_id building_id) db.assignments))
        u,
    is_empty-new_set (
        map (λ (a : BuildingAssignment). a.user_id)
          (select (is_manager_row db org_id building_id) db.assignments)),
    includes-keys (λ (a : BuildingAssignment). a.user_id) (is_manager_row db org_id building_id)
        db.assignments u,
    is_empty-keys (λ (a : BuildingAssignment). a.user_id) (is_manager_row db org_id building_id)
        db.assignments,
    has-new_set (map (λ (x : User). x.id) (select (is_admin_row db org_id) db.users)) u,
    includes-keys (λ (x : User). x.id) (is_admin_row db org_id) db.users u,
  )

abbrev tells_assignee : EventName → Bool
tells_assignee EventName.request_created = false
tells_assignee _ = true

abbrev tells_creator : EventName → Bool
tells_creator EventName.request_created = false
tells_creator EventName.request_canceled = false
tells_creator _ = true

abbrev is_id : Uid → Option Uid → Bool
is_id u none = false
is_id u (some v) = u == v

-- The user manages the building, or administers the organisation if nobody manages the building;
-- or is the assignee, but for a new request; or opened the request, but for a new or a canceled one.
abbrev pub is_concerned : Db → Event → Uid → Bool
is_concerned db event u =
    is_ops db event.payload.request.org_id event.payload.request.building_id u
    || ((tells_assignee event.name && is_id u (truthy event.payload.request.assigned_to_user_id))
        || (tells_creator event.name && u == event.payload.request.created_by_user_id))

-- The set before the actor is looked at.
concerned_set : Db → Event → List Uid
concerned_set db event =
    let request = event.payload.request in
    let ops = resolve_ops_recipients db request.org_id request.building_id in
    elim event.name [
      | EventName.request_created ↦ ops
      | EventName.request_assigned ↦
          add_all ops (add request.created_by_user_id (add_present request.assigned_to_user_id []))
      | EventName.request_status_changed ↦
          add_all ops (add_present request.assigned_to_user_id (request.created_by_user_id ∷ []))
      | EventName.request_commented ↦
          add_all ops (add_present request.assigned_to_user_id (request.created_by_user_id ∷ []))
      | EventName.request_canceled ↦ add_present request.assigned_to_user_id ops
    ]

has-add_present :
    (id : Option Uid) (set : List Uid) (u : Uid)
    → has (add_present id set) u ≡ (is_id u (truthy id) || has set u)
has-add_present id set u = elim (Option-cases (truthy id)) [
  | inl e ↦ ground (arith, e)
  | inr (v, e) ↦ ground (arith, e, has-add v set u)
]

has-concerned_set :
    (db : Db) (event : Event) (u : Uid) → has (concerned_set db event) u ≡ is_concerned db event u
unfolding concerned_set includes
has-concerned_set db event u =
    let request = event.payload.request in
    let ops = resolve_ops_recipients db request.org_id request.building_id in
    ground (
      arith,
      has-ops db request.org_id request.building_id u,
      has-add_present request.assigned_to_user_id [] u,
      has-add_present request.assigned_to_user_id ops u,
      has-add_present request.assigned_to_user_id (request.created_by_user_id ∷ []) u,
      has-add request.created_by_user_id (add_present request.assigned_to_user_id []) u,
      has-add_all ops (add request.created_by_user_id (add_present request.assigned_to_user_id []))
          u,
      has-add_all ops (add_present request.assigned_to_user_id (request.created_by_user_id ∷ [])) u,
    )

notice_of-user_ids :
    (db : Db) (event : Event)
    → (notice_of db event).user_ids
      ≡ finalize_recipients (concerned_set db event) event.payload.actor_user_id
unfolding notice_of concerned_set
notice_of-user_ids db event = ground arith

empty_has : (set : List Uid) (u : Uid) → is_empty set ≡ true → has set u ≡ false
unfolding includes
empty_has [] u h = refl
empty_has (x ∷ set) u h = cc

full_has : (set : List Uid) → is_empty set ≡ false → (v : Uid) × (has set v ≡ true)
unfolding includes
full_has [] h = cc
full_has (x ∷ set) h = (x, ground arith)

module _ (set : List Uid) (actor : Uid) where
  finalize-others :
      (u : Uid) → u == actor ≡ false → has (finalize_recipients set actor) u ≡ has set u
  unfolding finalize_recipients
  finalize-others u h = elim (Bool-cases (is_empty (delete actor set))) [
    | inl e ↦ ground (
      arith,
      e,
      has-add actor (delete actor set) u,
      has-delete actor set u,
      empty_has (delete actor set) u e,
    )
    | inr e ↦ ground (arith, e, has-delete actor set u)
  ]

  finalize-actor :
      (v : Uid)
      → v == actor ≡ false
      → has set v ≡ true
      → has (finalize_recipients set actor) actor ≡ false
  unfolding finalize_recipients
  finalize-actor v h k = ground (
    arith,
    has-delete actor set v,
    has-delete actor set actor,
    beq_self actor,
    empty_has (delete actor set) v,
  )

  finalize-alone :
      ((v : Uid) → v == actor ≡ false → has set v ≡ false)
      → finalize_recipients set actor ≡ actor ∷ []
  unfolding finalize_recipients add includes
  finalize-alone none_else = elim (Bool-cases (is_empty (delete actor set))) [
    | inl e ↦ ground (arith, alone (delete actor set) e)
    | inr e ↦
        let (v, k) = full_has (delete actor set) e in
        ground (arith, has-delete actor set v, none_else v)
  ]
    where
      alone : (others : List Uid) → is_empty others ≡ true → add actor others ≡ actor ∷ []
      alone [] h = refl
      alone (x ∷ xs) h = cc

-- Of the others exactly those are told whom the event concerns; the actor is told exactly if it
-- concerns nobody else, and then alone.
pub notice_of-recipients :
    (db : Db) (event : Event)
    → let recipients = (notice_of db event).user_ids in
      let actor = event.payload.actor_user_id in
      ((u : Uid) → u == actor ≡ false → has recipients u ≡ is_concerned db event u)
      × ((v : Uid)
          → v == actor ≡ false
          → is_concerned db event v ≡ true
          → has recipients actor ≡ false)
      × (((v : Uid) → v == actor ≡ false → is_concerned db event v ≡ false)
          → recipients ≡ actor ∷ [])
notice_of-recipients db event =
    let actor = event.payload.actor_user_id in
    let set = concerned_set db event in
    let e = notice_of-user_ids db event in
    (
      λ u h. ap (λ r. has r u) e ∙ finalize-others set actor u h ∙ has-concerned_set db event u,
      λ v h k.
          ap (λ r. has r actor) e ∙ finalize-actor set actor v h (has-concerned_set db event v ∙ k),
      λ none_else.
          e ∙ finalize-alone set actor (λ v h. has-concerned_set db event v ∙ none_else v h),
    )
