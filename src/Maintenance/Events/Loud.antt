-- ===== src/Maintenance/Events/Loud.antt =====
-- The calls that emit an event.
use towerdesk_backend.Common.{
  Bool, Option, none, some, List, [], ◌∷◌, ◌++◌, ◌≡◌, refl, arith, if◌then◌else◌,
}
use towerdesk_backend.Store.{
  Db, Uid, Time, Text, Status, Action, EventName, Event, request_created, request_assigned,
  request_status_changed, request_commented, request_canceled,
}
use towerdesk_backend.Scope.{AuthenticatedUser}
use towerdesk_backend.Maintenance.Resident.{
  CreateResidentRequestDto, create_resident_request, cancel_resident_request, add_resident_comment,
}
use towerdesk_backend.Maintenance.Staff.{
  assign_request, update_request_status, cancel_building_request, add_building_comment,
}
use towerdesk_backend.Maintenance.Visibility.{is_ok}

abbrev pub names : List Event → List EventName
names [] = []
names (e ∷ es) = e.name ∷ names es

-- The names of the events after a call.
abbrev pub extended : List EventName → Bool → Option EventName → List EventName
extended ns succeeded none = ns
extended ns succeeded (some n) = if succeeded then ns ++ n ∷ [] else ns

abbrev pub Announces : {A : Type 0} → Option EventName → Action A → Type 0
Announces n m = (db : Db) → names (m db).1.events ≡ extended (names db.events) (is_ok (m db).0) n

names-append : (es : List Event) (e : Event) → names (es ++ e ∷ []) ≡ names es ++ e.name ∷ []
names-append [] e = refl
names-append (x ∷ es) e = ground (arith, names-append es e)

pub create_resident_request-Announces :
    (id : Uid) (now : Time) (user : Option AuthenticatedUser) (dto : CreateResidentRequestDto)
    → Announces (some request_created) (create_resident_request id now user dto)
unfolding create_resident_request
create_resident_request-Announces id now user dto db = grind (arith, names-append)

pub cancel_resident_request-Announces :
    (now : Time) (user : Option AuthenticatedUser) (request_id : Uid)
    → Announces (some request_canceled) (cancel_resident_request now user request_id)
unfolding cancel_resident_request
cancel_resident_request-Announces now user request_id db = grind (arith, names-append)

pub add_resident_comment-Announces :
    (id : Uid) (now : Time) (user : Option AuthenticatedUser) (request_id : Uid) (message : Text)
    → Announces (some request_commented) (add_resident_comment id now user request_id message)
unfolding add_resident_comment
add_resident_comment-Announces id now user request_id message db = grind (arith, names-append)

pub assign_request-Announces :
    (now : Time) (user : Option AuthenticatedUser) (building_id request_id staff_user_id : Uid)
    → Announces
        (some request_assigned)
        (assign_request now user building_id request_id staff_user_id)
unfolding assign_request
assign_request-Announces now user building_id request_id staff_user_id db =
    grind (arith, names-append)

pub update_request_status-Announces :
    (now : Time) (user : Option AuthenticatedUser) (building_id request_id : Uid) (status : Status)
    → Announces
        (some request_status_changed)
        (update_request_status now user building_id request_id status)
unfolding update_request_status
update_request_status-Announces now user building_id request_id status db =
    grind (arith, names-append)

pub cancel_building_request-Announces :
    (now : Time) (user : Option AuthenticatedUser) (building_id request_id : Uid)
    → Announces (some request_canceled) (cancel_building_request now user building_id request_id)
unfolding cancel_building_request
cancel_building_request-Announces now user building_id request_id db = grind (arith, names-append)

pub add_building_comment-Announces :
    (id : Uid) (now : Time) (user : Option AuthenticatedUser) (building_id request_id : Uid)
    (message : Text)
    → Announces
        (some request_commented)
        (add_building_comment id now user building_id request_id message)
unfolding add_building_comment
add_building_comment-Announces id now user building_id request_id message db =
    grind (arith, names-append)
