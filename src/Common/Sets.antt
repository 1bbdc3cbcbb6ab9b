-- ===== src/Common/Sets.antt =====
-- `Set`: its elements in insertion order, each once.
use mathlib.Core.Path.{◌≡◌, refl}
use mathlib.Core.Bool.{Bool, true, false, not, ◌&&◌, ◌||◌}
use mathlib.Core.List.{List, [], ◌∷◌, ◌++◌}
use native.Mathlib.Omega.{arith}
use towerdesk_backend.Common.Tests.{if◌then◌else◌, Eq, ◌==◌}
use towerdesk_backend.Common.Lists.{includes}

module _ {ℓ} {A : Type ℓ} ⦃e : Eq A⦄ where
  -- `set.has(a)`
  abbrev pub has : List A → A → Bool
  has = includes

  -- `set.add(a)`
  unfoldable pub add : A → List A → List A
  add a xs = if includes xs a then xs else xs ++ a ∷ []

  -- `set.delete(a)`
  unfoldable pub delete : A → List A → List A
  delete a [] = []
  delete a (x ∷ xs) = if a == x then delete a xs else x ∷ delete a xs

  unfoldable pub add_all : List A → List A → List A
  add_all [] set = set
  add_all (a ∷ as') set = add_all as' (add a set)

  -- `new Set(values)`
  unfoldable pub new_set : List A → List A
  unfolding add_all
  new_set values = add_all values []

  pub includes-append :
      (xs ys : List A) (k : A) → includes (xs ++ ys) k ≡ (includes xs k || includes ys k)
  unfolding includes
  includes-append [] ys k = refl
  includes-append (x ∷ xs) ys k = ground (arith, includes-append xs ys k)

  pub beq_true : (a b : A) → a == b ≡ true → a ≡ b
  beq_true a b = (e.beq_iff a b).0

  pub beq_self : (a : A) → a == a ≡ true
  beq_self a = (e.beq_iff a a).1 refl

  pub beq_false : (a b : A) → a == b ≡ false → ¬ (a ≡ b)
  beq_false a b h p = cc ((e.beq_iff a b).1 p)

  pub has-add : (a : A) (set : List A) (k : A) → has (add a set) k ≡ (k == a || has set k)
  unfolding add includes
  has-add a set k = ground (arith, includes-append set (a ∷ []) k, beq_true k a)

  pub has-delete :
      (a : A) (set : List A) (k : A) → has (delete a set) k ≡ (not (k == a) && has set k)
  unfolding delete includes
  has-delete a [] k = ground arith
  has-delete a (x ∷ xs) k =
      ground (arith, has-delete a xs k, e.beq_iff k a, e.beq_iff a x, e.beq_iff k x)

  pub has-add_all :
      (as' set : List A) (k : A) → has (add_all as' set) k ≡ (includes as' k || has set k)
  unfolding add_all includes
  has-add_all [] set k = refl
  has-add_all (a ∷ as') set k = ground (arith, has-add_all as' (add a set) k, has-add a set k)

  pub has-new_set : (values : List A) (k : A) → has (new_set values) k ≡ includes values k
  unfolding new_set includes
  has-new_set values k = ground (arith, has-add_all values [] k)
