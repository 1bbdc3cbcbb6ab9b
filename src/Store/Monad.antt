-- ===== src/Store/Monad.antt =====
-- A service method: it reads and writes the database, and returns or throws. What was written
-- before a throw stays written, unless it was written inside `$transaction`.
use towerdesk_backend.Common.{
  Bool, String, Option, none, some, if◌then◌else◌, ◌≡◌, refl, ◌⊎◌, inl, inr, arith,
}
use towerdesk_backend.Store.Schema.{Db}

-- The exceptions of @nestjs/common that are thrown, and Prisma's for a unique constraint (P2002),
-- for a foreign key (P2003) and for a row that is not there (P2025).
pub data Error : Type 0 where
  bad_request unauthorized forbidden not_found conflict : String → Error
  unique_violation foreign_key_violation record_not_found : Error

pub data Result (A : Type 0) : Type 0 where
  ok : A → Result A
  err : Error → Result A

abbrev pub Action : Type 0 → Type 0
Action A = Db → Result A × Db

module _ {A : Type 0} where
  abbrev pub pure : A → Action A
  pure a db = (ok a, db)

  abbrev pub throw : Error → Action A
  throw e db = (err e, db)

  abbrev pub gets : (Db → A) → Action A
  gets f db = (ok (f db), db)

  -- `if (!value) throw e`
  abbrev pub or_throw : Option A → Error → Action A
  or_throw none e = throw e
  or_throw (some a) _ = pure a

  -- The writes of a transaction that throws are rolled back.
  abbrev pub transaction : Action A → Action A
  transaction m db = let (r, db') = m db in elim r [ ok a ↦ (ok a, db') | err e ↦ (err e, db) ]

infixl 5 ◌>>=◌ ◌>>◌
abbrev pub ◌>>=◌ : {A B : Type 0} → Action A → (A → Action B) → Action B
◌>>=◌ m f db = let (r, db') = m db in elim r [ ok a ↦ f a db' | err e ↦ (err e, db') ]

abbrev pub ◌>>◌ : {A B : Type 0} → Action A → Action B → Action B
m >> k = m >>= λ _. k

-- `if (test) throw e`
abbrev pub throw_if : Bool → Error → Action (Unit {0})
throw_if test e db = (if test then err e else ok tt, db)

abbrev pub modify : (Db → Db) → Action (Unit {0})
modify f db = (ok tt, f db)

-- What follows a method that returns.
pub bind_ok :
    {A B : Type 0} (m : Action A) (f : A → Action B) (db : Db) (a : A) (db' : Db)
    → m db ≡ (ok a, db')
    → (m >>= f) db ≡ f a db'
bind_ok m f db a db' h = ground arith

pub Result-cases :
    {A : Type 0} (r : Result A) → ((a : A) × (r ≡ ok a)) ⊎ ((e : Error) × (r ≡ err e))
Result-cases (ok a) = inl (a, refl)
Result-cases (err e) = inr (e, refl)

-- What returns after a method, returns after what the method returned.
pub bind-ok :
    {A B : Type 0} (m : Action A) (f : A → Action B) (db : Db) (b : B)
    → ((m >>= f) db).0 ≡ ok b
    → (a : A) × ((m db).0 ≡ ok a) × ((f a (m db).1).0 ≡ ok b)
bind-ok m f db b h = elim (Result-cases (m db).0) [
  | inl (a, e) ↦ (a, e, ground arith)
  | inr (e, r) ↦ ground arith
]

-- Two methods that write nothing write nothing one after the other.
pub bind_keeps :
    {A B : Type 0} (m : Action A) (f : A → Action B) (db : Db)
    → (m db).1 ≡ db
    → ((a : A) → (f a db).1 ≡ db)
    → ((m >>= f) db).1 ≡ db
bind_keeps m f db h k = elim (Result-cases (m db).0) [
  | inl (a, e) ↦ ground (arith, k a)
  | inr (e, r) ↦ ground arith
]
