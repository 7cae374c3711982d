-- ===== src/Effects.antt =====
-- How the services fail, and what they do to a session. A call returns or raises, and what it wrote
-- before it raised stays written, so the state comes back beside an error too.
--
-- A session (core/appdb/engine.py, `autoflush=False`) has three views of the database: the objects
-- as the program has changed them, what has been flushed, which is what a query sees, and what has
-- been committed.
pub mod Keeps
pub mod Gives
use tgc_bus_core.Base.{
  ◌≡◌, ◌≢◌, refl, ◌⊎◌, All, inl, inr, ℕ, String, Bool, Option, none, some, List, if◌then◌else◌,
}

-- One entry of `InsufficientStock.shortages`.
pub record Shortage : Type 0 where
  pub item_id : ℕ
  pub required : ℕ
  pub on_hand : ℕ
  pub missing : ℕ

pub data Error : Type 0 where
  -- HTTPException(status_code, detail)
  http : ℕ → String → Error
  -- the 409 of `_raise_active_invoice_conflict`, with the invoice's id
  active_invoice_exists : ℕ → Error
  value_error : String → Error
  lookup_error : String → Error
  key_error : Error
  insufficient_stock : List Shortage → Error
  -- HTTPException(400, {"shortages": …})
  stock_shortages : List Shortage → Error
  -- HTTPException(400, {"error": "legacy_quantity_keys_forbidden", "keys": …})
  legacy_keys : List String → Error
  -- InvalidOperation, DivisionByZero
  decimal_error : Error
  -- OverflowError of a date past the last one
  overflow_error : Error
  -- the InvalidRequestError of `begin` where a transaction has begun
  transaction_begun : Error
  -- what a flush raises where the database refuses the rows
  integrity_error : Error

pub data Result {ℓ} (A : Type ℓ) : Type ℓ where
  ok : A → Result A
  err : Error → Result A

pub Result-cases :
    {A : Type 0} (r : Result A) → ((a : A) × (r ≡ ok a)) ⊎ ((e : Error) × (r ≡ err e))
Result-cases (ok a) = inl (a, refl)
Result-cases (err e) = inr (e, refl)

abbrev pub Action {ℓ} : Type ℓ → Type ℓ → Type ℓ
Action S A = S → Result A × S

module _ {S A : Type 0} where
  abbrev pub pure : A → Action S A
  pure a s = (ok a, s)

  abbrev pub raise : Error → Action S A
  raise e s = (err e, s)

  abbrev pub gets : (S → A) → Action S A
  gets f s = (ok (f s), s)

  abbrev pub lift : Result A → Action S A
  lift r s = (r, s)

  abbrev pub or_raise : Option A → Error → Action S A
  or_raise none e = raise e
  or_raise (some a) _ = pure a

abbrev pub modify : {S : Type 0} → (S → S) → Action S (Unit {0})
modify f s = (ok tt, f s)

abbrev pub raise_if : {S : Type 0} → Bool → Error → Action S (Unit {0})
raise_if c e s = (if c then err e else ok tt, s)

abbrev pub continue : {S A B : Type 0} → Result A → (A → Action S B) → Action S B
continue (ok a) f s = f a s
continue (err e) f s = (err e, s)

infixl 5 ◌>>=◌ ◌>>◌
abbrev pub ◌>>=◌ : {S A B : Type 0} → Action S A → (A → Action S B) → Action S B
◌>>=◌ m f s = let (r, s') = m s in continue r f s'

abbrev pub ◌>>◌ : {S A B : Type 0} → Action S A → Action S B → Action S B
m >> k = m >>= λ _. k

-- Pure functions that may raise.
infixl 5 ◌then_do◌
abbrev pub ◌then_do◌ : {A B : Type 0} → Result A → (A → Result B) → Result B
ok a then_do f = f a
err e then_do f = err e

-- Where a bind returns, both its parts do.
pub then_do-ok :
    {A B : Type 0} (m : Result A) (f : A → Result B) {b : B}
    → (m then_do f) ≡ ok b
    → (a : A) × (m ≡ ok a) × (f a ≡ ok b)
then_do-ok (ok a) f h = (a, refl, h)
then_do-ok (err e) f h = cc

abbrev pub of_option : {A : Type 0} → Option A → Error → Result A
of_option none e = err e
of_option (some a) _ = ok a

-- What a session is given from outside: the clock, `uuid.uuid4().hex`, and the keys that the
-- database gives to new rows, from the keys in use.
pub record Env : Type 0 where
  pub now : ℕ
  pub new_token : String
  pub next_id : List ℕ → ℕ

-- The database gives a new row a key that no row has.
abbrev pub GivesFreshKeys : Env → Type 0
GivesFreshKeys env = (ids : List ℕ) → All (λ i. i ≢ env.next_id ids) ids

pub record Session (D : Type 0) : Type 0 where
  pub rows : D
  pub flushed : D
  pub committed : D

module _ {D : Type 0} where
  abbrev pub flush : Action (Session D) (Unit {0})
  flush = modify (λ s. record s { flushed = s.rows })

  abbrev pub commit : Action (Session D) (Unit {0})
  commit = modify (λ s. record s { flushed = s.rows; committed = s.rows })

  abbrev pub rollback : Action (Session D) (Unit {0})
  rollback = modify (λ s. record s { rows = s.committed; flushed = s.committed })

  -- Changes to the objects, not flushed yet.
  abbrev pub write : (D → D) → Action (Session D) (Unit {0})
  write f = modify (λ s. record s { rows = f s.rows })

  -- A session as a request begins it.
  abbrev pub fresh : D → Session D
  fresh d = record { rows = d; flushed = d; committed = d }
