-- ===== src/Common/Tables.antt =====
-- Tables: rows with a primary key, in the order in which the database scans them.
use Prim.Native.Nat.{ℕ}
use mathlib.Core.Path.{◌≡◌, refl}
use mathlib.Core.Bool.{Bool, false}
use mathlib.Core.List.{List, [], ◌∷◌, ◌++◌}
use mathlib.Core.Option.{some}
use native.Mathlib.Omega.{arith}
use towerdesk_backend.Common.Tests.{if◌then◌else◌, nat_beq, Bool-cases}
use mathlib.Core.Logic.{inl, inr}
use towerdesk_backend.Common.Lists.{any, find, any-find, any-append}

module _ {A : Type 0} (key : A → ℕ) where
  -- `update({ where: { id }, data })`: the columns of `data` change, here by `patch`.
  unfoldable pub update : ℕ → (A → A) → List A → List A
  update k patch [] = []
  update k patch (x ∷ xs) =
      if nat_beq (key x) k then patch x ∷ update k patch xs else x ∷ update k patch xs

  abbrev pub has_key : ℕ → List A → Bool
  has_key k = any (λ x. nat_beq (key x) k)

  -- No primary key stands twice.
  abbrev pub UniqueKeys : List A → Type 0
  UniqueKeys [] = Unit
  UniqueKeys (x ∷ xs) = (has_key (key x) xs ≡ false) × UniqueKeys xs

  pub update_absent :
      (k : ℕ) (patch : A → A) (xs : List A) → has_key k xs ≡ false → update k patch xs ≡ xs
  unfolding update any
  update_absent k patch [] h = refl
  update_absent k patch (x ∷ xs) h = ground (arith, update_absent k patch xs)

  -- A row found behind `x` has another key.
  pub find_other :
      (k : ℕ) (p : A → Bool) (xs : List A) {r : A}
      → find p xs ≡ some r
      → has_key k xs ≡ false
      → nat_beq k (key r) ≡ false
  find_other k p xs {r} f h = ground (arith, any-find p (λ x. nat_beq (key x) k) xs f)

  pub has_key-update :
      (k j : ℕ) (patch : A → A) (xs : List A)
      → ((x : A) → key (patch x) ≡ key x)
      → has_key j (update k patch xs) ≡ has_key j xs
  unfolding update any
  has_key-update k j patch [] h = refl
  has_key-update k j patch (x ∷ xs) h = ground (arith, has_key-update k j patch xs h, h x)

  pub update-UniqueKeys :
      (k : ℕ) (patch : A → A) (xs : List A)
      → ((x : A) → key (patch x) ≡ key x)
      → UniqueKeys xs
      → UniqueKeys (update k patch xs)
  unfolding update
  update-UniqueKeys k patch [] h u = tt
  update-UniqueKeys k patch (x ∷ xs) h u =
      ground (arith, update-UniqueKeys k patch xs h u.1, has_key-update k (key x) patch xs h, h x)

  -- A row with a fresh key may be added.
  pub append-UniqueKeys :
      (xs : List A) (r : A) → has_key (key r) xs ≡ false → UniqueKeys xs → UniqueKeys (xs ++ r ∷ [])
  unfolding any
  append-UniqueKeys [] r h u = (refl, tt)
  append-UniqueKeys (x ∷ xs) r h u =
      ground (arith, append-UniqueKeys xs r, any-append (λ y. nat_beq (key y) (key x)) xs (r ∷ []))

  -- A query that the patch does not change finds the patched row.
  pub find-update :
      (p : A → Bool) (patch : A → A) (xs : List A) (r : A)
      → ((x : A) → p (patch x) ≡ p x)
      → find p xs ≡ some r
      → find p (update (key r) patch xs) ≡ some (patch r)
  unfolding find update
  find-update p patch [] r h f = cc
  find-update p patch (x ∷ xs) r h f = elim (Bool-cases (p x)) [
    | inl found ↦ let e : x ≡ r = ground arith in ground (arith, h x)
    | inr other ↦ ground (arith, h x, find-update p patch xs r h)
  ]

  -- A row that a query finds is found by its key too, if keys are unique.
  pub find_by_key :
      (p : A → Bool) (xs : List A) (r : A)
      → UniqueKeys xs
      → find p xs ≡ some r
      → find (λ x. nat_beq (key x) (key r)) xs ≡ some r
  unfolding find
  find_by_key p [] r u f = cc
  find_by_key p (x ∷ xs) r u f = elim (Bool-cases (p x)) [
    | inl found ↦ let e : x ≡ r = ground arith in ground arith
    | inr other ↦
        let f' : find p xs ≡ some r = ground arith in
        ground (arith, find_other (key x) p xs f' u.0, find_by_key p xs r u.1 f')
  ]
