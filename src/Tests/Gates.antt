-- ===== src/Tests/Gates.antt =====
-- The theorems on the routes, and on what the controllers show.
use towerdesk_backend.Common.{
  Bool, true, false, Option, none, some, [], ◌∷◌, ◌++◌, ◌≡◌, refl, any, select, find, every,
  includes, new_set, add, delete, sort_by, insert_by, nat_eq, ◌⊎◌,
}
use towerdesk_backend.Store.{Uid, Text, User, Db, ok, err, forbidden}
use towerdesk_backend.Scope.{has_global_permissions, get_building_assignment_type, may_read}
use towerdesk_backend.Access.{effective_permissions, UpdateMode}
use towerdesk_backend.Access.Updates.{has_user_role}
use towerdesk_backend.Org.{find_user}
use towerdesk_backend.Auth.{
  JwtPayload, absent, get_org_id_override, PlatformRequest, is_platform_key,
}
use towerdesk_backend.Auth.Identity.{MayAct}
use towerdesk_backend.Estate.{list_units}
use towerdesk_backend.Routes.{
  BuildingCall, UnitsCall, units, decorators, handler, answer, user_access, assign, answer_account,
  get_by_id, units_decorators, units_handler,
}
use towerdesk_backend.Routes.Admission.{refusal, answer_lem, is_of_org}
use towerdesk_backend.Routes.Queries.{answer_keeps-runs}
use towerdesk_backend.Routes.Platform.{
  PlatformCall, platform_permissions, answer_platform, bearer_payload, is_platform_user,
  answer_platform-ok,
}
use towerdesk_backend.Accounts.{list_orgs}
use towerdesk_backend.Routes.Signed.{answer_signed, answer_signed-ok}
use towerdesk_backend.Routes.Permissions.{answer_account-assign}
use towerdesk_backend.Tests.Sample.{db, manager_user, staff_user, resident_user}
use towerdesk_backend.Tests.Tokens.{crypto}

abbrev no_hash : Text → Text
no_hash text = text

abbrev counting_units : BuildingCall
counting_units = units UnitsCall.count

-- A resident may not count the units.
resident_refused :
    refusal (decorators counting_units) db resident_user 5 ≡ some (forbidden "Forbidden")
unfolding units_decorators any has_global_permissions every includes effective_permissions delete
    new_set add select
resident_refused = refl

answer_lem_example :
    answer no_hash resident_user 5 counting_units db
    ≡ elim (refusal (decorators counting_units) db resident_user 5) [
      | none ↦ handler no_hash resident_user 5 counting_units db
      | some e ↦ (err e, db)
    ]
answer_lem_example = answer_lem no_hash resident_user 5 counting_units db

answer_keeps-runs_example : (answer no_hash staff_user 5 (units (UnitsCall.get_by_id 6)) db).1 ≡ db
unfolding units_decorators any has_global_permissions every includes effective_permissions delete
    new_set add select
answer_keeps-runs_example =
    answer_keeps-runs no_hash staff_user 5 (units (UnitsCall.get_by_id 6)) db 2 refl refl refl

abbrev id_of_text : Text → Uid
id_of_text [] = 0
id_of_text (c ∷ _) = c

abbrev payload : JwtPayload
payload = record { sub = 1; email = none; org_id = none }

answered_signed :
    (answer_signed id_of_text no_hash absent payload 5 (units (UnitsCall.list none)) db).0 ≡ ok tt
unfolding answer_signed units_decorators any find has_global_permissions every includes
    effective_permissions delete new_set add select get_building_assignment_type units_handler
    list_units sort_by insert_by may_read
answered_signed = refl

answer_signed-ok_example :
    (x : User) × (org_id : Uid) × (override : Option Uid) × (find_user 1 db ≡ some x)
    × (x.is_active ≡ true)
    × ((get_org_id_override id_of_text absent db).0 ≡ ok override)
    × MayAct db x override (some org_id)
    × (is_of_org db org_id 5 ≡ true)
answer_signed-ok_example =
    answer_signed-ok id_of_text no_hash absent payload 5 (units (UnitsCall.list none)) db
      answered_signed

-- The sample, with a permission `users.write` for managers, and a role `super_admin`.
abbrev admin_db : Db
admin_db = record db {
  permissions = record { id = 42; key = "users.write" } ∷ [];
  role_permissions = record { role_id = 31; permission_id = 42 } ∷ [];
  roles =
      db.roles
      ++ record { id = 32; key = "super_admin"; name = []; description = none; is_system = true }
        ∷ [];
}

answer_account-assign_example :
    ((answer_account crypto manager_user
        (user_access (assign 1 (32 ∷ []) UpdateMode.add))
        admin_db).0
      ≡ ok tt)
    × (has_user_role
          (answer_account crypto manager_user
            (user_access (assign 1 (32 ∷ []) UpdateMode.add))
            admin_db).1
          1
          32
        ≡ true)
unfolding any includes effective_permissions delete new_set add select
answer_account-assign_example =
    answer_account-assign crypto manager_user admin_db 1 1 32 UpdateMode.add refl refl refl refl

abbrev contains : Text → Text → Bool
contains a b = false

-- A request with the key of the platform.
abbrev keyed : PlatformRequest
keyed = record { platform_key = some (75 ∷ []); authorization = none; effective_permissions = none }

answer_platform-ok_example :
    (is_platform_key (some (75 ∷ [])) (some (75 ∷ [])) ≡ true)
    ⊎ ((payload : JwtPayload) × (x : User) × (bearer_payload crypto keyed ≡ some payload)
        × (find_user payload.sub db ≡ some x)
        × (is_platform_user db (platform_permissions PlatformCall.list) x ≡ true))
unfolding answer_platform list_orgs
answer_platform-ok_example =
    answer_platform-ok crypto (some (75 ∷ [])) keyed PlatformCall.list db refl refl
