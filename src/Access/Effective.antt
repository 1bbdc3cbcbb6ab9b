-- ===== src/Access/Effective.antt =====
-- Which permissions are in effect for a user, in terms of the rows of the tables.
use towerdesk_backend.Common.{
  ap, String, Bool, true, false, List, [], ◌∷◌, map, ◌≡◌, refl, ◌∙◌, ◌==◌, nat_eq, string_eq, not,
  ◌&&◌, ◌||◌, any, includes, has, any-append, any-select, has-add, has-delete, has-new_set,
  beq_true, arith,
}
use towerdesk_backend.Store.{Uid, Effect, allow, deny, Db}
use towerdesk_backend.Access.Repo.{
  UserPermissionOverride, flat_map, linked_permissions, permissions_of_role, role_permission_keys,
  user_overrides,
}
use towerdesk_backend.Access.Service.{apply_override, apply_overrides, effective_permissions}

abbrev pub is_allow : Effect → Bool
is_allow allow = true
is_allow deny = false

abbrev allows : String → List UserPermissionOverride → Bool
allows k = any (λ o. k == o.key && is_allow o.effect)

abbrev denies : String → List UserPermissionOverride → Bool
denies k = any (λ o. k == o.key && not (is_allow o.effect))

-- No key has two overrides.
abbrev pub UniqueOverrides : List UserPermissionOverride → Type 0
UniqueOverrides [] = Unit
UniqueOverrides (o ∷ os) = (any (λ p. o.key == p.key) os ≡ false) × UniqueOverrides os

any_other :
    (q : UserPermissionOverride → Bool) (k : String) (os : List UserPermissionOverride)
    → any (λ p. k == p.key) os ≡ false
    → any (λ p. k == p.key && q p) os ≡ false
unfolding any
any_other q k [] h = refl
any_other q k (o ∷ os) h = ground (arith, any_other q k os)

has-apply_overrides :
    (os : List UserPermissionOverride) (set : List String) (k : String)
    → UniqueOverrides os
    → has (apply_overrides os set) k ≡ (allows k os || (has set k && not (denies k os)))
unfolding apply_overrides any
has-apply_overrides [] set k h = ground arith
has-apply_overrides (o ∷ os) set k h = ground (
  arith,
  has-apply_overrides os (apply_override o set) k h.1,
  has-add o.key set k,
  has-delete o.key set k,
  beq_true k o.key,
  any_other (λ p. is_allow p.effect) k os,
  any_other (λ p. not (is_allow p.effect)) k os,
)

module _ {A : Type 0} where
  any-map :
      {B : Type 0} (q : B → Bool) (f : A → B) (xs : List A)
      → any q (map f xs) ≡ any (λ x. q (f x)) xs
  unfolding any
  any-map q f [] = refl
  any-map q f (x ∷ xs) = ground (arith, any-map q f xs)

  any-flat_map :
      {B : Type 0} (q : B → Bool) (f : A → List B) (xs : List A)
      → any q (flat_map f xs) ≡ any (λ x. any q (f x)) xs
  unfolding any flat_map
  any-flat_map q f [] = refl
  any-flat_map q f (x ∷ xs) =
      ground (arith, any-flat_map q f xs, any-append q (f x) (flat_map f xs))

includes-any : (xs : List String) (k : String) → includes xs k ≡ any (λ x. k == x) xs
unfolding includes any
includes-any [] k = refl
includes-any (x ∷ xs) k = ground (arith, includes-any xs k)

-- The permission with this id has the key.
abbrev pub is_permission : Db → Uid → String → Bool
is_permission db id k = any (λ p. p.id == id && k == p.key) db.permissions

-- One of the user's roles holds a permission with the key.
abbrev pub role_grants : Db → Uid → String → Bool
role_grants db user_id k =
    any
      (λ ur.
        ur.user_id == user_id
        && any (λ rp. rp.role_id == ur.role_id && is_permission db rp.permission_id k)
            db.role_permissions)
      db.user_roles

-- The user has an override for the key, of the kind that `p` tells.
abbrev pub overrides : (Effect → Bool) → Db → Uid → String → Bool
overrides p db user_id k =
    any (λ up. up.user_id == user_id && (p up.effect && is_permission db up.permission_id k))
      db.user_permissions

module _ {A : Type 0} where
  any_ext : (p q : A → Bool) (xs : List A) → ((x : A) → p x ≡ q x) → any p xs ≡ any q xs
  unfolding any
  any_ext p q [] h = refl
  any_ext p q (x ∷ xs) h = ground (arith, any_ext p q xs h, h x)

  any_const :
      (p q : A → Bool) (c : Bool) (xs : List A)
      → any (λ x. p x && (q x && c)) xs ≡ (c && any (λ x. p x && q x) xs)
  unfolding any
  any_const p q c [] = ground arith
  any_const p q c (x ∷ xs) = ground (arith, any_const p q c xs)

any-user_overrides :
    (p : Effect → Bool) (db : Db) (user_id : Uid) (k : String)
    → any (λ o. k == o.key && p o.effect) (user_overrides db user_id) ≡ overrides p db user_id k
unfolding user_overrides linked_permissions
any-user_overrides p db user_id k =
    any-flat_map _ _ _
    ∙ any-select _ _ db.user_permissions
    ∙ any_ext _ _ db.user_permissions (λ up.
      ap (λ b. up.user_id == user_id && b)
        (any-map _ _ _
          ∙ any-select _ _ db.permissions
          ∙ any_const (λ q. q.id == up.permission_id) (λ q. k == q.key) (p up.effect)
              db.permissions))

includes-role_permission_keys :
    (db : Db) (user_id : Uid) (k : String)
    → includes (role_permission_keys db user_id) k ≡ role_grants db user_id k
unfolding role_permission_keys permissions_of_role linked_permissions
includes-role_permission_keys db user_id k =
    includes-any _ k
    ∙ any-flat_map _ _ _
    ∙ any-select _ _ db.user_roles
    ∙ any_ext _ _ db.user_roles (λ ur.
      ap (λ b. ur.user_id == user_id && b)
        (any-map _ _ _
          ∙ any-flat_map _ _ _
          ∙ any-select _ _ db.role_permissions
          ∙ any_ext _ _ db.role_permissions
              (λ rp. ap (λ b. rp.role_id == ur.role_id && b) (any-select _ _ db.permissions))))

-- If no permission key has two overrides for the user, then a key is in effect exactly when an
-- override allows it, or a role of the user grants it and no override denies it.
pub effective_permissions_lem :
    (db : Db) (user_id : Uid) (k : String)
    → UniqueOverrides (user_overrides db user_id)
    → has (effective_permissions db user_id) k ≡ (
        overrides is_allow db user_id k
        || (role_grants db user_id k && not (overrides (λ e. not (is_allow e)) db user_id k)))
unfolding effective_permissions
effective_permissions_lem db user_id k h = rw (
  has-apply_overrides,
  h,
  has-new_set,
  includes-role_permission_keys,
  any-user_overrides is_allow db user_id k,
  any-user_overrides (λ e. not (is_allow e)) db user_id k,
)
