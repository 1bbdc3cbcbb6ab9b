-- ===== src/Org/Vacancy.antt =====
-- A unit has one active occupancy at most, whichever service writes it.
mod Stays
pub mod Provisioning
use towerdesk_backend.Common.{
  Bool, true, false, not, ◌&&◌, Option, none, some, List, [], ◌∷◌, ◌++◌, map, ◌≡◌, ◌⊎◌, inl, inr,
  refl, ◌==◌, nat_eq, any, find, any-append, is_some, if◌then◌else◌, arith, Option-cases, subst,
}
use towerdesk_backend.Store.{Uid, Time, Text, active, is_active_status, Occupancy, Db, Action}
use towerdesk_backend.Scope.{AuthenticatedUser}
use towerdesk_backend.Org.Directory.{
  occupies, find_active_occupancy, active_occupancy, find_unit_for_building, find_user,
}
use towerdesk_backend.Org.Occupancies.{create_active_if_vacant, create_occupancy_for}
use towerdesk_backend.Org.Residents.{CreateResidentDto, onboard}

-- No unit stands in two active rows.
abbrev pub OneActive : List Occupancy → Type 0
OneActive [] = Unit
OneActive (o ∷ os) =
    ((is_active_status o.status && any (occupies o.unit_id) os) ≡ false) × OneActive os

pub find-any : (p : Occupancy → Bool) (os : List Occupancy) → find p os ≡ none → any p os ≡ false
unfolding find any
find-any p [] h = refl
find-any p (o ∷ os) h = ground (arith, find-any p os)

pub OneActive-append :
    (os : List Occupancy) (o : Occupancy)
    → any (occupies o.unit_id) os ≡ false
    → OneActive os
    → OneActive (os ++ o ∷ [])
unfolding any
OneActive-append [] o h k = (ground arith, tt)
OneActive-append (x ∷ os) o h k =
    ground (arith, OneActive-append os o, any-append (occupies x.unit_id) os (o ∷ []))

-- A call keeps the invariant.
abbrev pub KeepsOneActive : {A : Type 0} → Action A → Type 0
KeepsOneActive m = (db : Db) → OneActive db.occupancies → OneActive (m db).1.occupancies

-- The rows after a call are those before it, or one more for a unit that was vacant.
occupied_by :
    (os os' : List Occupancy) (o : Occupancy)
    → OneActive os
    → (os' ≡ os) ⊎ ((os' ≡ os ++ o ∷ []) × (find (occupies o.unit_id) os ≡ none))
    → OneActive os'
occupied_by os os' o h (inl e) = rw e h
occupied_by os os' o h (inr (e, v)) =
    rw e (OneActive-append os o (find-any (occupies o.unit_id) os v) h)

-- If no unit has two active occupancies, none has after an occupancy is created through its own
-- route, whether that succeeds or throws.
pub create_occupancy_for-KeepsOneActive :
    (id : Uid) (now : Time) (user : Option AuthenticatedUser)
    (building_id unit_id resident_user_id : Uid)
    → KeepsOneActive (create_occupancy_for id now user building_id unit_id resident_user_id)
unfolding create_occupancy_for
create_occupancy_for-KeepsOneActive id now user building_id unit_id resident_user_id db h =
    elim (Option-cases (find_unit_for_building building_id unit_id db)) [
      | inl absent ↦ subst OneActive (ground arith) h
      | inr (unit, eu) ↦ elim (Option-cases (find_user resident_user_id db)) [
        | inl nobody ↦ subst OneActive (ground arith) h
        | inr (resident, er) ↦
            occupied_by db.occupancies _ (active_occupancy id now building_id unit.id resident.id) h
              (ground arith)
      ]
    ]

-- If no unit has two active occupancies, none has after a resident is onboarded, whether that
-- succeeds or throws.
pub onboard-KeepsOneActive :
    (hash : Text → Text) (user_id occupancy_id : Uid) (now : Time) (temp_password : Text)
    (user : Option AuthenticatedUser) (building_id : Uid) (dto : CreateResidentDto)
    → KeepsOneActive (onboard hash user_id occupancy_id now temp_password user building_id dto)
unfolding onboard
onboard-KeepsOneActive hash user_id occupancy_id now temp_password user building_id dto db h =
    elim (Option-cases (find_unit_for_building building_id dto.unit_id db)) [
      | inl absent ↦ subst OneActive (ground arith) h
      | inr (unit, eu) ↦
          occupied_by db.occupancies _
            (active_occupancy occupancy_id now building_id unit.id user_id) h (ground arith)
    ]
