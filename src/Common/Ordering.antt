-- ===== src/Common/Ordering.antt =====
-- Sorting by a total order in which rows with different keys do not tie, and what comes behind a
-- row of the sorted list.
use Prim.Native.Nat.{ℕ}
use mathlib.Core.Path.{◌≡◌, refl, ◌∙◌}
use mathlib.Core.Bool.{Bool, true, false, not}
use mathlib.Core.List.{List, [], ◌∷◌, ◌++◌}
use mathlib.Core.Logic.{inl, inr}
use native.Mathlib.Omega.{arith}
use towerdesk_backend.Common.Tests.{if◌then◌else◌, Bool-cases, nat_beq}
use towerdesk_backend.Common.Lists.{any, select, All, All-map}
use towerdesk_backend.Common.Sorting.{insert_by, sort_by, any-sort_by, All-insert_by}
use towerdesk_backend.Common.Tables.{UniqueKeys, has_key}

module _ {A : Type 0} (before : A → A → Bool) where
  -- Nothing stands behind a row that is before it.
  abbrev pub Strict : List A → Type 0
  Strict [] = Unit
  Strict (x ∷ xs) = All (λ y. before y x ≡ false) xs × Strict xs

  insert_front :
      (a : A) (xs : List A) → All (λ y. before y a ≡ false) xs → insert_by before a xs ≡ a ∷ xs
  unfolding insert_by
  insert_front a [] h = refl
  insert_front a (x ∷ xs) h = ground arith

pub All-kept :
    {A : Type 0} (P : A → Type 0) (q : A → Bool) (xs : List A) → All P xs → All P (select q xs)
unfolding select
All-kept P q [] h = tt
All-kept P q (x ∷ xs) h = elim (Bool-cases (q x)) [
  | inl e ↦ rw e (h.0, All-kept P q xs h.1)
  | inr e ↦ rw e (All-kept P q xs h.1)
]

-- A total order; where two rows tie, they have the same key.
pub record Order {A : Type 0} (before : A → A → Bool) (key : A → ℕ) : Type 0 where
  pub trans : (a b c : A) → before a b ≡ true → before b c ≡ true → before a c ≡ true
  pub total : (a b : A) → before a b ≡ false → before b a ≡ true
  pub tie : (a b : A) → before a b ≡ true → before b a ≡ true → key a ≡ key b

module _ {A : Type 0} (before : A → A → Bool) (key : A → ℕ) (order : Order before key) where
  behind : (a x y : A) → before x a ≡ false → before y x ≡ false → before y a ≡ false
  behind a x y h k = elim (Bool-cases (before y a)) [
    | inl e ↦ ground (arith, order.total x a h, order.trans y a x e)
    | inr e ↦ e
  ]

  All-behind :
      (a x : A) (xs : List A)
      → before x a ≡ false
      → All (λ y. before y x ≡ false) xs
      → All (λ y. before y a ≡ false) xs
  All-behind a x xs h = All-map (λ y k. behind a x y h k) xs

  select-insert_by :
      (q : A → Bool) (a : A) (xs : List A)
      → Strict before xs
      → select q (insert_by before a xs)
        ≡ (if q a then insert_by before a (select q xs) else select q xs)
  unfolding select insert_by
  select-insert_by q a [] h = ground arith
  select-insert_by q a (x ∷ xs) h = elim (Bool-cases (before x a)) [
    | inl e ↦ ground (arith, e, select-insert_by q a xs h.1)
    | inr e ↦
        let front =
          insert_front before a (select q xs)
            (All-kept (λ y. before y a ≡ false) q xs (All-behind a x xs e h.0)) in
        ground (arith, e, front)
  ]

  no_tie : (a x : A) → nat_beq (key x) (key a) ≡ false → before x a ≡ true → before a x ≡ false
  no_tie a x h e = elim (Bool-cases (before a x)) [
    | inl k ↦ ground (arith, order.tie x a e k)
    | inr k ↦ k
  ]

  Strict-insert_by :
      (a : A) (xs : List A)
      → has_key key (key a) xs ≡ false
      → Strict before xs
      → Strict before (insert_by before a xs)
  unfolding insert_by any
  Strict-insert_by a [] u h = (tt, tt)
  Strict-insert_by a (x ∷ xs) u h = elim (Bool-cases (before x a)) [
    | inl e ↦ rw e (
      All-insert_by before (λ y. before y x ≡ false) a xs (no_tie a x (ground arith) e) h.0,
      Strict-insert_by a xs (ground arith) h.1,
    )
    | inr e ↦ rw e ((e, All-behind a x xs e h.0), h)
  ]

  pub Strict-sort_by : (xs : List A) → UniqueKeys key xs → Strict before (sort_by before xs)
  unfolding sort_by
  Strict-sort_by [] u = tt
  Strict-sort_by (x ∷ xs) u =
      Strict-insert_by x (sort_by before xs)
        (any-sort_by before (λ y. nat_beq (key y) (key x)) xs ∙ u.0) (Strict-sort_by xs u.1)

  -- Which rows are kept may be asked before or after the sorting.
  pub select-sort_by :
      (q : A → Bool) (xs : List A)
      → UniqueKeys key xs
      → select q (sort_by before xs) ≡ sort_by before (select q xs)
  unfolding select sort_by
  select-sort_by q [] u = refl
  select-sort_by q (x ∷ xs) u = ground (
    arith,
    select-sort_by q xs u.1,
    select-insert_by q x (sort_by before xs) (Strict-sort_by xs u.1),
  )

  keep_behind :
      (n : A) (xs : List A)
      → All (λ y. before y n ≡ false) xs
      → select (λ x. not (before x n)) xs ≡ xs
  unfolding select
  keep_behind n [] h = refl
  keep_behind n (x ∷ xs) h = ground (arith, keep_behind n xs h.1)

  in_front :
      (n x : A) (front rest : List A)
      → All (λ y. before y x ≡ false) (front ++ n ∷ rest)
      → before n x ≡ false
  in_front n x [] rest h = h.0
  in_front n x (y ∷ front) rest h = in_front n x front rest h.1

  -- What comes strictly behind a row is the rest of the list.
  pub select_behind :
      (n : A) (front rest : List A)
      → Strict before (front ++ n ∷ rest)
      → select (λ x. not (before x n)) (front ++ n ∷ rest) ≡ rest
  unfolding select
  select_behind n [] rest h = ground (arith, keep_behind n rest h.0, order.total n n)
  select_behind n (x ∷ front) rest h =
      ground (arith, select_behind n front rest h.1, order.total n x, in_front n x front rest h.0)
