-- ===== src/Access/Updates.antt =====
-- What `assignRoles` and `setRolePermissions` leave in the tables.
use towerdesk_backend.Common.{
  Bool, true, List, [], ◌∷◌, ◌++◌, ◌≡◌, refl, ◌==◌, nat_eq, string_eq, not, ◌&&◌, ◌||◌, any, select,
  includes, any-append, if◌then◌else◌, arith, Bool-cases, inl, inr,
}
use towerdesk_backend.Store.{Uid, UserRole, Db, ok, err, Error}
use towerdesk_backend.Access.Repo.{
  insert_missing, same_user_role, create_user_roles, user_role_rows, add_user_roles,
  replace_user_roles,
}
use towerdesk_backend.Access.Service.{UpdateMode, assign_roles, is_add}

module _ {A : Type 0} (same : A → A → Bool) (q : A → Bool) where
  abbrev Respects : Type 0
  Respects = (a b : A) → same a b ≡ true → q a ≡ q b

  any-same :
      Respects
      → (row : A) (table : List A) → any (same row) table ≡ true
      → q row ≡ true
      → any q table ≡ true
  unfolding any
  any-same r row [] h t = ground arith
  any-same r row (x ∷ table) h t = ground (arith, any-same r row table, r row x)

  -- After the insertion the table has the old rows and the new ones.
  any-insert_missing :
      Respects
      → (rows table : List A) → any q (insert_missing same rows table) ≡ (any q rows || any q table)
  unfolding any insert_missing
  any-insert_missing r [] table = refl
  any-insert_missing r (row ∷ rows) table = elim (Bool-cases (any (same row) table)) [
    | inl there ↦
        rw there (ground (arith, any-insert_missing r rows table, any-same r row table there))
    | inr new ↦ rw new (
        ground
          (arith, any-insert_missing r rows (table ++ row ∷ []), any-append q table (row ∷ [])))
  ]

-- The user has the role.
abbrev pub has_user_role : Db → Uid → Uid → Bool
has_user_role db user_id role_id =
    any (λ ur. ur.user_id == user_id && ur.role_id == role_id) db.user_roles

any-user_role_rows :
    (user_id u r : Uid) (ids : List Uid)
    → any (λ (ur : UserRole). ur.user_id == u && ur.role_id == r) (user_role_rows user_id ids)
      ≡ (user_id == u && includes ids r)
unfolding any includes
any-user_role_rows user_id u r [] = ground arith
any-user_role_rows user_id u r (i ∷ ids) = ground (arith, any-user_role_rows user_id u r ids)

any_kept :
    (user_id u r : Uid) (rows : List UserRole)
    → any
        (λ ur. ur.user_id == u && ur.role_id == r)
        (select (λ ur. not (ur.user_id == user_id)) rows)
      ≡ (not (user_id == u) && any (λ ur. ur.user_id == u && ur.role_id == r) rows)
unfolding any select
any_kept user_id u r [] = ground arith
any_kept user_id u r (x ∷ rows) = ground (arith, any_kept user_id u r rows)

any-inserted :
    (u r : Uid) (rows table : List UserRole)
    → any (λ ur. ur.user_id == u && ur.role_id == r) (insert_missing same_user_role rows table) ≡ (
        any (λ ur. ur.user_id == u && ur.role_id == r) rows
        || any (λ ur. ur.user_id == u && ur.role_id == r) table)
any-inserted u r = any-insert_missing same_user_role _ (λ a b h. ground arith)

-- Where `assignRoles` succeeds, it has written the rows for the user and touched no other user:
-- in the mode `replace` the user then has exactly the roles that were named, in the mode `add`
-- those beside the roles that the user had.
pub assign_roles_lem :
    (user_id : Uid) (role_ids : List Uid) (mode : UpdateMode) (db : Db) (u r : Uid)
    → (assign_roles user_id role_ids mode db).0 ≡ ok tt
    → has_user_role (assign_roles user_id role_ids mode db).1 u r ≡ (
        if user_id == u
        then includes role_ids r || (is_add mode && has_user_role db u r)
        else has_user_role db u r)
unfolding assign_roles add_user_roles replace_user_roles create_user_roles includes
assign_roles_lem user_id [] UpdateMode.replace db u r h =
    ground (arith, any_kept user_id u r db.user_roles)
assign_roles_lem user_id [] UpdateMode.add db u r h = ground arith
assign_roles_lem user_id (i ∷ ids) UpdateMode.replace db u r h = ground (
  arith,
  any_kept user_id u r db.user_roles,
  any-user_role_rows user_id u r (i ∷ ids),
  any-inserted u r (user_role_rows user_id (i ∷ ids))
      (select (λ ur. not (ur.user_id == user_id)) db.user_roles),
)
assign_roles_lem user_id (i ∷ ids) UpdateMode.add db u r h = ground (
  arith,
  any-user_role_rows user_id u r (i ∷ ids),
  any-inserted u r (user_role_rows user_id (i ∷ ids)) db.user_roles,
)

-- A call of `assignRoles` that throws leaves the database as it was.
pub assign_roles-atomic :
    (user_id : Uid) (role_ids : List Uid) (mode : UpdateMode) (db : Db) {e : Error}
    → (assign_roles user_id role_ids mode db).0 ≡ err e
    → (assign_roles user_id role_ids mode db).1 ≡ db
unfolding assign_roles add_user_roles replace_user_roles create_user_roles
assign_roles-atomic user_id role_ids mode db h = ground arith
