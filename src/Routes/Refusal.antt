-- ===== src/Routes/Refusal.antt =====
-- What the guards of the routes that are not below a building refuse.
use towerdesk_backend.Common.{
  String, Option, none, some, List, [], ◌∷◌, ◌≡◌, refl, string_eq, has, every, is_empty, or_default,
  arith, if◌then◌else◌, Option-cases, inl, inr,
}
use towerdesk_backend.Store.{
  Uid, Db, Action, Error, ok, err, unauthorized, forbidden, Result, ◌>>=◌,
}
use towerdesk_backend.Scope.{
  AuthenticatedUser, sub_of, org_of, Request, org_scope_guard, permissions_guard,
  building_access_guard,
}
use towerdesk_backend.Access.{effective_permissions}
use towerdesk_backend.Auth.{Crypto}
use towerdesk_backend.Routes.Pipeline.{
  Plain, Guard, jwt_auth, org_scope, permissions, building_access, plain_route, plain_request,
  run_guard, run_guards, serve,
}
use towerdesk_backend.Routes.Accounts.{AccountCall, account_route, account_handler, answer_account}

-- Why a guard refuses the user, by the rows alone, if it does.
abbrev pub guard_refusal : List String → Db → Option AuthenticatedUser → Guard → Option Error
guard_refusal required db user jwt_auth = elim user [
  | none ↦ some (unauthorized "Unauthorized")
  | some _ ↦ none
]
guard_refusal required db user org_scope = elim (sub_of user) [
  | none ↦ some (unauthorized "Unauthorized")
  | some _ ↦ elim (org_of user) [ none ↦ some (forbidden "Org scope required") | some _ ↦ none ]
]
guard_refusal required db user permissions =
    if is_empty required then none else elim (sub_of user) [
      | none ↦ some (unauthorized "Unauthorized")
      | some user_id ↦
          if every (has (effective_permissions db user_id)) required
          then none
          else some (forbidden "Missing required permissions")
    ]
guard_refusal required db user building_access = none

-- The first refusal in the order of the guards.
abbrev pub first_refusal : List String → Db → Option AuthenticatedUser → List Guard → Option Error
first_refusal required db user [] = none
first_refusal required db user (g ∷ gs) = elim (guard_refusal required db user g) [
  | none ↦ first_refusal required db user gs
  | some e ↦ some e
]

abbrev pub plain_refusal : Plain → Db → Option AuthenticatedUser → Option Error
plain_refusal plain db user = first_refusal plain.required db user plain.guards

-- The permissions that were cached, if they were, are those in effect.
abbrev IsCached : Db → Request → Type 0
IsCached db request =
    (user_id : Uid)
    → sub_of request.user ≡ some user_id
    → or_default request.effective_permissions (effective_permissions db user_id)
      ≡ effective_permissions db user_id

abbrev pub answered : {A : Type 0} → Option Error → Result A × Db → Db → Result A × Db
answered none r db = r
answered (some e) r db = (err e, db)

-- The request behind a guard.
abbrev behind_guard : List String → Db → Guard → Request → Request
behind_guard required db permissions request =
    if is_empty required then request else elim (sub_of request.user) [
      | none ↦ request
      | some user_id ↦ record request {
        effective_permissions = some (effective_permissions db user_id);
      }
    ]
behind_guard required db _ request = request

run_guard_lem :
    (plain : Plain) (g : Guard) (request : Request) (db : Db)
    → IsCached db request
    → run_guard (plain_route plain).metadata g request db
      ≡ answered
          (guard_refusal plain.required db request.user g)
          (ok (behind_guard plain.required db g request), db)
          db
unfolding run_guard org_scope_guard permissions_guard building_access_guard
run_guard_lem plain jwt_auth request db c = ground arith
run_guard_lem plain org_scope request db c = ground arith
run_guard_lem plain building_access request db c = ground arith
run_guard_lem plain permissions request db c = elim (Option-cases (sub_of request.user)) [
  | inl n ↦ ground arith
  | inr (user_id, s) ↦ ground (arith, c user_id s)
]

behind-IsCached :
    (required : List String) (g : Guard) (request : Request) (db : Db)
    → IsCached db request
    → IsCached db (behind_guard required db g request)
behind-IsCached required jwt_auth request db c = c
behind-IsCached required org_scope request db c = c
behind-IsCached required building_access request db c = c
behind-IsCached required permissions request db c = λ user_id s. ground (arith, c user_id)

behind-user :
    (required : List String) (g : Guard) (request : Request) (db : Db)
    → (behind_guard required db g request).user ≡ request.user
behind-user required jwt_auth request db = refl
behind-user required org_scope request db = refl
behind-user required building_access request db = refl
behind-user required permissions request db = ground arith

run_guards_lem :
    {A : Type 0} (plain : Plain) (guards : List Guard) (request : Request) (db : Db)
    (next : Option AuthenticatedUser → Action A)
    → IsCached db request
    → (run_guards (plain_route plain).metadata guards request >>= λ request. next request.user) db
      ≡ answered (first_refusal plain.required db request.user guards) (next request.user db) db
unfolding run_guards
run_guards_lem plain [] request db next c = refl
run_guards_lem plain (g ∷ guards) request db next c = ground (
  arith,
  run_guard_lem plain g request db c,
  behind-user plain.required g request db,
  run_guards_lem plain guards (behind_guard plain.required db g request) db next
      (behind-IsCached plain.required g request db c),
)

plain_route_lem :
    {A : Type 0} (plain : Plain) (user : Option AuthenticatedUser)
    (next : Option AuthenticatedUser → Action A) (db : Db)
    → serve (plain_route plain) (plain_request user) next db
      ≡ answered (plain_refusal plain db user) (next user db) db
unfolding serve
plain_route_lem plain user next db =
    run_guards_lem plain plain.guards (plain_request user) db next (λ _ _. refl)

-- A call of the routes of users, roles and provisioning is refused by the first of its guards
-- that the rows of the tables fail, with nothing written, and else answered as the service does.
pub answer_account_lem :
    (crypto : Crypto) (user : Option AuthenticatedUser) (call : AccountCall) (db : Db)
    → answer_account crypto user call db
      ≡ answered
          (plain_refusal (account_route call) db user)
          (account_handler crypto user call db)
          db
unfolding answer_account
answer_account_lem crypto user call db =
    plain_route_lem (account_route call) user (λ user. account_handler crypto user call) db
