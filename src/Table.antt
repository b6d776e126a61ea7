-- ===== src/Table.antt =====
-- SQL tables as lists of rows, and the statements that the stores send to them.
pub mod Laws
pub mod Order
pub mod Kept
use fxa_lite.Prelude.{
  ℕ, ◌+◌, Bool, not, Option, none, some, List, [], ◌∷◌, if◌then◌else◌, length, max,
}

module _ {ℓ} {A : Type ℓ} where
  -- `SELECT … WHERE p`, every row
  unfoldable pub select : (A → Bool) → List A → List A
  select p [] = []
  select p (r ∷ rows) = let rest = select p rows in if p r then r ∷ rest else rest

  -- `SELECT … WHERE p` and `fetchone()`
  unfoldable pub fetch_one : (A → Bool) → List A → Option A
  fetch_one p [] = none
  fetch_one p (r ∷ rows) = if p r then some r else fetch_one p rows

  -- `DELETE … WHERE p`
  unfoldable pub delete : (A → Bool) → List A → List A
  delete p [] = []
  delete p (r ∷ rows) = let rest = delete p rows in if p r then rest else r ∷ rest

  -- `UPDATE … SET f WHERE p`
  unfoldable pub update : (A → Bool) → (A → A) → List A → List A
  update p f [] = []
  update p f (r ∷ rows) = (if p r then f r else r) ∷ update p f rows

  -- `INSERT … ON CONFLICT(key) DO UPDATE SET f`: `p` finds the row with the key of the new one
  unfoldable pub upsert : (A → Bool) → (A → A) → A → List A → List A
  upsert p f new [] = new ∷ []
  upsert p f new (r ∷ rows) = if p r then f r ∷ rows else r ∷ upsert p f new rows

  -- `COUNT(*)` or `rowcount`
  unfoldable pub row_count : (A → Bool) → List A → ℕ
  unfolding select
  row_count p rows = length (select p rows)

  -- `SUM(f)`, where no row is 0
  unfoldable pub sum_of : (A → ℕ) → List A → ℕ
  sum_of f [] = 0
  sum_of f (r ∷ rows) = f r + sum_of f rows

  -- `MAX(f)`, where no row is 0
  unfoldable pub max_of : (A → ℕ) → List A → ℕ
  max_of f [] = 0
  max_of f (r ∷ rows) = max (f r) (max_of f rows)
