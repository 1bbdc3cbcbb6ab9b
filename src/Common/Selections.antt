-- ===== src/Common/Selections.antt =====
-- What `filter` does to rows.
use Prim.Native.Nat.{ℕ}
use mathlib.Core.Path.{◌≡◌, refl}
use mathlib.Core.Bool.{Bool, true, false, ◌&&◌}
use mathlib.Core.List.{List, [], ◌∷◌}
use native.Mathlib.Omega.{arith}
use towerdesk_backend.Common.Lists.{select, any}
use towerdesk_backend.Common.Tables.{UniqueKeys, has_key}

module _ {A : Type 0} where
  pub select_and :
      (p q : A → Bool) (xs : List A) → select (λ x. p x && q x) xs ≡ select q (select p xs)
  unfolding select
  select_and p q [] = refl
  select_and p q (x ∷ xs) = ground (arith, select_and p q xs)

  pub select_ext :
      (p q : A → Bool) (xs : List A) → ((x : A) → p x ≡ q x) → select p xs ≡ select q xs
  unfolding select
  select_ext p q [] h = refl
  select_ext p q (x ∷ xs) h = ground (arith, select_ext p q xs h, h x)

  pub select-true : (xs : List A) → select (λ x. true) xs ≡ xs
  unfolding select
  select-true [] = refl
  select-true (x ∷ xs) = ground (arith, select-true xs)

  pub has_key-select :
      (key : A → ℕ) (k : ℕ) (p : A → Bool) (xs : List A)
      → has_key key k xs ≡ false
      → has_key key k (select p xs) ≡ false
  unfolding select any
  has_key-select key k p [] h = refl
  has_key-select key k p (x ∷ xs) h = ground (arith, has_key-select key k p xs)

  pub select-UniqueKeys :
      (key : A → ℕ) (p : A → Bool) (xs : List A) → UniqueKeys key xs → UniqueKeys key (select p xs)
  unfolding select
  select-UniqueKeys key p [] u = tt
  select-UniqueKeys key p (x ∷ xs) u =
      ground (arith, select-UniqueKeys key p xs u.1, has_key-select key (key x) p xs u.0)

-- The listing without pages.
