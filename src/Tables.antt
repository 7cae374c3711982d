-- ===== src/Tables.antt =====
-- A database table as the list of its rows in order of insertion, each row with its primary key.
-- `find_row` is `session.get`; `update_row` is an assignment to an attribute of a row's object;
-- `order_by` is the ORDER BY of a query.
pub mod Rows
pub mod Order
pub mod Sorted
use tgc_bus_core.Base.{
  ℕ, ◌≡◌, ◌≢◌, Bool, Option, none, some, List, [], ◌∷◌, ◌==◌, if◌then◌else◌, All, get_or,
}

module _ {A : Type 0} (key : A → ℕ) where
  unfoldable pub find_row : ℕ → List A → Option A
  find_row k [] = none
  find_row k (r ∷ rows) = if key r == k then some r else find_row k rows

  unfoldable pub update_row : ℕ → (A → A) → List A → List A
  update_row k f [] = []
  update_row k f (r ∷ rows) = if key r == k then f r ∷ rows else r ∷ update_row k f rows

  -- `session.delete`
  unfoldable pub delete_row : ℕ → List A → List A
  delete_row k [] = []
  delete_row k (r ∷ rows) = if key r == k then rows else r ∷ delete_row k rows

  -- A row that a query returns is the session's object for its key.
  unfoldable pub current : List A → A → A
  unfolding find_row
  current rows r = get_or (find_row (key r) rows) r

  -- No two rows have one key.
  abbrev pub IsKeyed : List A → Type 0
  IsKeyed [] = Unit
  IsKeyed (r ∷ rows) = All (λ other. key other ≢ key r) rows × IsKeyed rows

module _ {A : Type 0} (before : A → A → Bool) where
  pub place : A → List A → List A
  place r [] = r ∷ []
  place r (q ∷ rows) = if before q r then q ∷ place r rows else r ∷ q ∷ rows

  unfoldable pub order_by : List A → List A
  unfolding place
  order_by [] = []
  order_by (r ∷ rows) = place r (order_by rows)
