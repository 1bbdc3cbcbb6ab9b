-- ===== src/Routes/Admission.antt =====
-- What the guards of the building routes let through to the services.
use towerdesk_backend.Common.{
  Bool, true, false, Option, none, some, ◌≡◌, refl, ◌==◌, nat_eq, ◌&&◌, any, not, arith,
  if◌then◌else◌, String, Option-cases, inl, inr, Bool-cases,
}
use towerdesk_backend.Store.{
  Uid, Text, Db, Action, Error, err, not_found, forbidden, bad_request, unauthorized,
}
use towerdesk_backend.Scope.{
  AuthenticatedUser, truthy, org_of, sub_of, AccessLevel, read, write, options_of,
  building_access_guard, is_truthy, org_scope_guard,
}
use towerdesk_backend.Scope.Checks.{entitled, building_access_guard_lem}
use towerdesk_backend.Routes.Pipeline.{
  run_guard, run_guards, serve, Decorators, decorated, building_metadata, building_route,
  at_building,
}
use towerdesk_backend.Routes.Buildings.{BuildingCall, decorators, handler, answer}

-- The building is one of the organisation.
abbrev pub is_of_org : Db → Uid → Uid → Bool
is_of_org db org_id building_id = any (λ b. b.id == building_id && b.org_id == org_id) db.buildings

-- The caller is one whom the decorators mean, by the rows of the tables.
abbrev pub is_meant : Decorators → Db → Uid → Option AuthenticatedUser → Uid → Bool
is_meant d db building_id user user_id =
    entitled d.level (building_metadata d) db building_id user_id
      (options_of d.level (building_metadata d) (at_building user building_id))

metadata-level :
    (l : AccessLevel) (flag : Bool) (key : String)
    → (building_metadata (decorated l flag key)).access_level ≡ some l
metadata-level read flag key = refl
metadata-level write flag key = refl

truthy_lem : (b : Uid) → is_truthy b ≡ true → truthy (some b) ≡ some b
truthy_lem b h = ground arith

pub serve_lem :
    {A : Type 0} (d : Decorators) (user : Option AuthenticatedUser) (building_id : Uid)
    (next : Option AuthenticatedUser → Action A) (db : Db) {user_id org_id : Uid}
    → sub_of user ≡ some user_id
    → org_of user ≡ some org_id
    → is_truthy building_id ≡ true
    → serve (building_route d) (at_building user building_id) next db ≡ (
        if is_of_org db org_id building_id
        then if is_meant d db building_id user user_id
          then next user db
          else (err (forbidden "Forbidden"), db)
        else (err (not_found "Building not found"), db))
unfolding serve run_guards run_guard org_scope_guard
serve_lem d user building_id next db {user_id} {org_id} s o b = ground (
  arith,
  building_access_guard_lem db (building_metadata d) (at_building user building_id) d.level user_id
      org_id building_id (metadata-level d.level d.flag d.permission) s o
      (truthy_lem building_id b),
)

-- Why a call is refused, by the rows alone, if it is.
abbrev pub refusal : Decorators → Db → Option AuthenticatedUser → Uid → Option Error
refusal d db user building_id = elim (sub_of user) [
  | none ↦ some (unauthorized "Unauthorized")
  | some user_id ↦ elim (org_of user) [
    | none ↦ some (forbidden "Org scope required")
    | some org_id ↦
        if not (is_truthy building_id)
        then some (bad_request "buildingId is required")
        else if not (is_of_org db org_id building_id)
        then some (not_found "Building not found")
        else if not (is_meant d db building_id user user_id)
        then some (forbidden "Forbidden")
        else none
  ]
]

unsigned :
    {A : Type 0} (d : Decorators) (user : Option AuthenticatedUser) (building_id : Uid)
    (next : Option AuthenticatedUser → Action A) (db : Db)
    → sub_of user ≡ none
    → serve (building_route d) (at_building user building_id) next db
      ≡ (err (unauthorized "Unauthorized"), db)
unfolding serve run_guards run_guard org_scope_guard
unsigned d none building_id next db s = refl
unsigned d (some user) building_id next db s = ground arith

unscoped :
    {A : Type 0} (d : Decorators) (user : Option AuthenticatedUser) (building_id : Uid)
    (next : Option AuthenticatedUser → Action A) (db : Db) {user_id : Uid}
    → sub_of user ≡ some user_id
    → org_of user ≡ none
    → serve (building_route d) (at_building user building_id) next db
      ≡ (err (forbidden "Org scope required"), db)
unfolding serve run_guards run_guard org_scope_guard
unscoped d none building_id next db s o = ground arith
unscoped d (some user) building_id next db s o = ground arith

unnamed :
    {A : Type 0} (d : Decorators) (user : Option AuthenticatedUser) (building_id : Uid)
    (next : Option AuthenticatedUser → Action A) (db : Db) {user_id org_id : Uid}
    → sub_of user ≡ some user_id
    → org_of user ≡ some org_id
    → is_truthy building_id ≡ false
    → serve (building_route d) (at_building user building_id) next db
      ≡ (err (bad_request "buildingId is required"), db)
unfolding serve run_guards run_guard org_scope_guard building_access_guard
unnamed d user building_id next db s o b =
    ground (arith, metadata-level d.level d.flag d.permission)

-- A route of a building refuses by the rows alone: without a user, without an organisation,
-- without the id of a building, unless the building is one of that organisation, and unless the
-- caller is one whom the decorators mean. It then writes nothing. Else it answers as the service
-- does.
pub answer_lem :
    (hash : Text → Text) (user : Option AuthenticatedUser) (building_id : Uid) (call : BuildingCall)
    (db : Db)
    → answer hash user building_id call db ≡ elim (refusal (decorators call) db user building_id) [
      | none ↦ handler hash user building_id call db
      | some e ↦ (err e, db)
    ]
unfolding answer
answer_lem hash user building_id call db =
    let next : Option AuthenticatedUser → Action (Unit {0}) =
      λ user. handler hash user building_id call in
    let d : Decorators = decorators call in
    elim (Option-cases (sub_of user)) [
      | inl s ↦ rw s (unsigned d user building_id next db s)
      | inr (user_id, s) ↦ elim (Option-cases (org_of user)) [
        | inl o ↦ rw s (rw o (unscoped d user building_id next db s o))
        | inr (org_id, o) ↦ elim (Bool-cases (is_truthy building_id)) [
          | inl b ↦ rw s (rw o (ground (arith, serve_lem d user building_id next db s o b)))
          | inr b ↦ rw s (rw o (rw b (unnamed d user building_id next db s o b)))
        ]
      ]
    ]
