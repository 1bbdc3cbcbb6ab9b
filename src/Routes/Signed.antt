-- ===== src/Routes/Signed.antt =====
-- A call of a building route from its token on: the strategy, the guards and the service.
use towerdesk_backend.Common.{true, Option, none, some, ◌≡◌, arith, Option-cases, inl, inr}
use towerdesk_backend.Store.{Uid, Text, User, Db, Action, ◌>>=◌, ok, bind-ok, bind_keeps}
use towerdesk_backend.Scope.{AuthenticatedUser, org_of}
use towerdesk_backend.Org.{find_user}
use towerdesk_backend.Auth.{
  JwtPayload, RawValue, validate, get_org_id_override, validate_payload, parse_org_id_override,
  scope_of, parse_text, header_text,
}
use towerdesk_backend.Auth.Identity.{MayAct, validate_payload-MayAct}
use towerdesk_backend.Routes.Pipeline.{Decorators}
use towerdesk_backend.Routes.Buildings.{BuildingCall, decorators, answer}
use towerdesk_backend.Routes.Admission.{is_of_org, refusal, answer_lem}

unfoldable pub answer_signed :
    (Text → Uid) → (Text → Text) → RawValue → JwtPayload → Uid → BuildingCall → Action (Unit {0})
unfolding validate answer
answer_signed id_of_text hash header payload building_id call =
    validate id_of_text header payload >>= λ user. answer hash (some user) building_id call

override_keeps :
    (id_of_text : Text → Uid) (header : RawValue) (db : Db)
    → (get_org_id_override id_of_text header db).1 ≡ db
unfolding get_org_id_override parse_org_id_override parse_text
override_keeps id_of_text header db = elim (Option-cases (header_text header)) [
  | inl e ↦ ground arith
  | inr (raw, e) ↦ ground (arith, e)
]

payload_keeps :
    (payload : JwtPayload) (override : Option Uid) (db : Db)
    → (validate_payload payload override db).1 ≡ db
unfolding validate_payload scope_of
payload_keeps payload override db = ground arith

-- A building route that does not refuse has a building of the caller's organisation.
refusal-none :
    (d : Decorators) (db : Db) (a : AuthenticatedUser) (building_id : Uid)
    → refusal d db (some a) building_id ≡ none
    → (org_id : Uid) × (a.org_id ≡ some org_id) × (is_of_org db org_id building_id ≡ true)
refusal-none d db a building_id h = elim (Option-cases (org_of (some a))) [
  | inl o ↦ ground arith
  | inr (org_id, o) ↦ (org_id, ground arith, ground arith)
]

answer-none :
    (hash : Text → Text) (user : Option AuthenticatedUser) (building_id : Uid) (call : BuildingCall)
    (db : Db)
    → (answer hash user building_id call db).0 ≡ ok tt
    → refusal (decorators call) db user building_id ≡ none
answer-none hash user building_id call db h =
    elim (Option-cases (refusal (decorators call) db user building_id)) [
      | inl e ↦ e
      | inr (e, r) ↦ ground (arith, answer_lem hash user building_id call db)
    ]

-- Whatever a building route answers without an error, it answers for a token of an active user,
-- about a building of the organisation in which that user may act: the user's own, or the one
-- that the header names, for a `platform_superadmin` without one.
pub answer_signed-ok :
    (id_of_text : Text → Uid) (hash : Text → Text) (header : RawValue) (payload : JwtPayload)
    (building_id : Uid) (call : BuildingCall) (db : Db)
    → (answer_signed id_of_text hash header payload building_id call db).0 ≡ ok tt
    → (x : User) × (org_id : Uid) × (override : Option Uid) × (find_user payload.sub db ≡ some x)
      × (x.is_active ≡ true)
      × ((get_org_id_override id_of_text header db).0 ≡ ok override)
      × MayAct db x override (some org_id)
      × (is_of_org db org_id building_id ≡ true)
unfolding answer_signed
answer_signed-ok id_of_text hash header payload building_id call db h =
    let (a, v, r) =
      bind-ok (validate id_of_text header payload)
        (λ user. answer hash (some user) building_id call) db tt h in
    let (override, g, p) =
      bind-ok (get_org_id_override id_of_text header) (validate_payload payload) db a v in
    let k : (get_org_id_override id_of_text header db).1 ≡ db =
      override_keeps id_of_text header db in
    let p' : (validate_payload payload override db).0 ≡ ok a = ground arith in
    let (x, e, active, _, may) = validate_payload-MayAct payload override db a p' in
    let k' : (validate id_of_text header payload db).1 ≡ db =
      bind_keeps (get_org_id_override id_of_text header) (validate_payload payload) db k
        (λ o. payload_keeps payload o db) in
    let r' : (answer hash (some a) building_id call db).0 ≡ ok tt = ground arith in
    let (org_id, o, b) =
      refusal-none (decorators call) db a building_id
        (answer-none hash (some a) building_id call db r') in
    (x, org_id, override, e, active, g, rw (← o) may, b)
