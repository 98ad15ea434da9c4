-- ===== src/Sqlite/Table.antt =====
-- One table of the SQLite database: rows with a primary key, newest first, and the two statements
-- that change a table. A statement that breaks a constraint changes nothing.
use blogengine.Prelude.{
  Bool, not, ◌&&◌, List, [], ◌∷◌, Option, none, some, find, any, if◌then◌else◌,
}
use blogengine.Prelude.Int.{ℤ, ◌==ℤ◌}
use blogengine.Errors.{
  Sentinel, sqlite_error, constraint_check, constraint_unique, constraint_foreign_key,
}

-- What the driver returns for a statement.
pub data Reply {ℓ} (A : Type ℓ) : Type ℓ where
  done : A → Reply A
  failed : Sentinel → Reply A

-- The schema of a table: its primary key, its CHECK constraints and its unique indices, given as
-- the test that two rows fall together in one.
pub record Schema (A : Type 0) : Type 0 where
  pub id : A → ℤ
  pub check : A → Bool
  pub clash : A → A → Bool

module _ {A : Type 0} (s : Schema A) where
  -- the row with the key of `r` becomes `r`
  unfoldable pub replace : A → List A → List A
  replace r [] = []
  replace r (x ∷ xs) = (if s.id x ==ℤ s.id r then r else x) ∷ replace r xs

  -- a unique index holds a row other than `r` that falls together with `r`
  abbrev pub is_taken : A → List A → Bool
  is_taken r = any (λ x. not (s.id x ==ℤ s.id r) && s.clash r x)

  -- INSERT: `refs` says that the foreign keys of the row are met. The constraints are checked in
  -- SQLite's order, the foreign keys at the end of the statement.
  unfoldable pub insert : A → Bool → List A → Reply (List A)
  insert r refs rows =
      if not (s.check r)
      then failed (sqlite_error constraint_check)
      else if is_taken r rows
      then failed (sqlite_error constraint_unique)
      else if not refs
      then failed (sqlite_error constraint_foreign_key)
      else done (r ∷ rows)

  -- UPDATE … WHERE id = ? AND …: the key is unique, so at most one row matches. The result has the
  -- row as RETURNING gives it and the table; `trigger` is the schema's AFTER UPDATE trigger.
  unfoldable pub update : (A → Bool) → (A → A) → (A → A) → List A → Reply (Option A × List A)
  unfolding replace
  update where_ assign trigger rows = elim (find where_ rows) [
    | none ↦ done (none, rows)
    | some old ↦
        let new = assign old in
        let stored = trigger new in
        if not (s.check stored)
        then failed (sqlite_error constraint_check)
        else if is_taken stored rows
        then failed (sqlite_error constraint_unique)
        else done (some new, replace stored rows)
  ]
