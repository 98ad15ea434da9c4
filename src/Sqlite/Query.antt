-- ===== src/Sqlite/Query.antt =====
-- How the store's methods use the driver: sqlx.GetContext, SelectContext, ExecContext and
-- RowsAffected. An error of the engine stops a statement before it has any effect.
use blogengine.Prelude.{[], ◌∷◌, Option, none, some}
use blogengine.Errors.{Sentinel, Error, Result, ok, err, sql_no_rows, err_not_found, map_sql_error}
use blogengine.Sqlite.Table.{Reply, done, failed}
use blogengine.Sqlite.Database.{Call, Db}

-- A method of the store: what it returns, and the database after it.
abbrev pub Op : Type 0 → Type 0
Op A = Call → Db → Result A × Db

module _ {A : Type 0} where
  -- ExecContext, and the start of every other statement
  abbrev pub exec : Call → Reply A → Reply A
  exec c r = elim c.fault [ some e ↦ failed e | none ↦ r ]

  -- GetContext: the first row, or sql.ErrNoRows
  abbrev first_row : Option A → Reply A
  first_row none = failed sql_no_rows
  first_row (some a) = done a

  abbrev pub get : Call → Option A → Reply A
  get c o = exec c (first_row o)

  -- the answer of a query, with its error wrapped
  abbrev pub answer : Reply A → (Sentinel → Error) → Result A
  answer (done a) wrap = ok a
  answer (failed e) wrap = err (wrap e)

  -- RowsAffected, its error wrapped, and storage.ErrNotFound where no row was hit
  abbrev pub affected : Call → Option A → (Sentinel → Error) → Result (Unit {0})
  affected c hit wrap = elim c.rows_fault [
    | some e ↦ err (wrap e)
    | none ↦ elim hit [ none ↦ err (err_not_found ∷ []) | some _ ↦ ok tt ]
  ]

abbrev pub mapped : Sentinel → Error
mapped e = map_sql_error e ∷ []
