-- ===== src/Scope/Levels.antt =====
-- The assignment type of a user in a building is the highest one.
use towerdesk_backend.Common.{
  ℕ, ◌≤◌, Bool, true, false, Option, none, some, List, [], ◌∷◌, ◌≡◌, refl, ◌==◌, nat_eq, ◌&&◌, any,
  select, any-select, arith, if◌then◌else◌, ◌∙◌, Bool-cases, ap, inl, is_empty, zero-le, fun_ext,
  inr, subst, sym, is_some, ◌||◌, not,
}
use towerdesk_backend.Store.{
  Uid, AssignmentType, manager, staff, building_admin, type_eq, BuildingAssignment, Db,
}
use towerdesk_backend.Scope.Buildings.{
  get_building_assignment_type, first_type, assignment_priority, is_type,
}

-- The user has an assignment of the type in the building.
abbrev pub has_assignment : Db → Uid → Uid → AssignmentType → Bool
has_assignment db building_id user_id type =
    any (λ a. (a.building_id == building_id && a.user_id == user_id) && a.type == type)
      db.assignments

-- 0 stands first.
abbrev pub precedence : AssignmentType → ℕ
precedence building_admin = 0
precedence manager = 1
precedence staff = 2

-- `t` is the first type that has the property, in the order of precedence.
abbrev pub IsFirst : (AssignmentType → Bool) → Option AssignmentType → Type 0
IsFirst p none = (t : AssignmentType) → p t ≡ false
IsFirst p (some t) =
    (p t ≡ true) × ((t' : AssignmentType) → p t' ≡ true → precedence t ≤ precedence t')

choose : (AssignmentType → Bool) → Option AssignmentType
choose p =
    if p building_admin
    then some building_admin
    else if p manager
    then some manager
    else if p staff
    then some staff
    else none

le_precedence :
    (p : AssignmentType → Bool)
    → p building_admin ≡ false
    → (t' : AssignmentType) → p t' ≡ true
    → 1 ≤ precedence t'
le_precedence p h building_admin e = ground arith
le_precedence p h manager e = omega arith
le_precedence p h staff e = omega arith

le_precedence_staff :
    (p : AssignmentType → Bool)
    → p building_admin ≡ false
    → p manager ≡ false
    → (t' : AssignmentType) → p t' ≡ true
    → 2 ≤ precedence t'
le_precedence_staff p h k building_admin e = ground arith
le_precedence_staff p h k manager e = ground arith
le_precedence_staff p h k staff e = omega arith

all_false :
    (p : AssignmentType → Bool)
    → p building_admin ≡ false
    → p manager ≡ false
    → p staff ≡ false
    → (t : AssignmentType) → p t ≡ false
all_false p a m s building_admin = a
all_false p a m s manager = m
all_false p a m s staff = s

choose-IsFirst : (p : AssignmentType → Bool) → IsFirst p (choose p)
unfolding choose
choose-IsFirst p = elim (Bool-cases (p building_admin)) [
  | inl a ↦ rw a (a, λ t' e. zero-le)
  | inr a ↦ elim (Bool-cases (p manager)) [
    | inl m ↦ rw (a, m) (m, le_precedence p a)
    | inr m ↦ elim (Bool-cases (p staff)) [
      | inl s ↦ rw (a, m, s) (s, le_precedence_staff p a m)
      | inr s ↦ rw (a, m, s) (all_false p a m s)
    ]
  ]
]

first_type_of_empty :
    (l : List BuildingAssignment)
    → (if is_empty l then none else first_type assignment_priority l)
      ≡ choose (λ t. any (λ a. a.type == t) l)
unfolding first_type choose any
first_type_of_empty [] = refl
first_type_of_empty (a ∷ l) = refl

-- Of a user without assignments in the building the type is none; else it is a type that the user
-- has there, and no type that the user has comes before it in the order BUILDING_ADMIN, MANAGER,
-- STAFF.
pub get_building_assignment_type_lem :
    (db : Db) (building_id user_id : Uid)
    → IsFirst
        (has_assignment db building_id user_id)
        (get_building_assignment_type db building_id user_id)
unfolding get_building_assignment_type choose
get_building_assignment_type_lem db building_id user_id =
    let mine = λ (a : BuildingAssignment). a.building_id == building_id && a.user_id == user_id in
    let e : get_building_assignment_type db building_id user_id
        ≡ choose (has_assignment db building_id user_id) =
      first_type_of_empty (select mine db.assignments)
      ∙ ap choose (fun_ext (λ t. any-select mine (λ a. a.type == t) db.assignments)) in
    subst (IsFirst (has_assignment db building_id user_id)) (sym e)
      (choose-IsFirst (has_assignment db building_id user_id))

-- What the services read off the type: that there is one, exactly if the user has some assignment
-- in the building; that it is BUILDING_ADMIN, exactly if the user has that one; that it is
-- MANAGER, exactly if the user has that one and not BUILDING_ADMIN.
pub assignment_tests :
    (db : Db) (building_id user_id : Uid)
    → let t = get_building_assignment_type db building_id user_id in
      let has_type = has_assignment db building_id user_id in
      (is_some t ≡ (has_type building_admin || (has_type manager || has_type staff)))
      × (is_type building_admin t ≡ has_type building_admin)
      × (is_type manager t ≡ (not (has_type building_admin) && has_type manager))
assignment_tests db building_id user_id =
    go (get_building_assignment_type db building_id user_id) (has_assignment db building_id user_id)
      (get_building_assignment_type_lem db building_id user_id)
  where
    go :
        (t : Option AssignmentType) (p : AssignmentType → Bool)
        → IsFirst p t
        → (is_some t ≡ (p building_admin || (p manager || p staff)))
          × (is_type building_admin t ≡ p building_admin)
          × (is_type manager t ≡ (not (p building_admin) && p manager))
    go none p h = ground (arith, h building_admin, h manager, h staff)
    go (some building_admin) p h = ground arith
    go (some manager) p h = ground (arith, h.1 building_admin)
    go (some staff) p h = ground (arith, h.1 building_admin, h.1 manager)
