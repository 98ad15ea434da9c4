-- ===== src/Sqlite/Users.antt =====
-- storage/sqlite/users.go. `users.username` has the collation NOCASE, so the query by name ignores
-- the case of ASCII letters.
use blogengine.Prelude.{
  suc, true, not, ◌&&◌, ◌||◌, [], ◌∷◌, none, some, find, is_some, if◌then◌else◌,
}
use blogengine.Prelude.Int.{ℤ, pos, ◌==ℤ◌}
use blogengine.Prelude.Text.{Text}
use blogengine.Errors.{ok, err, err_not_found}
use blogengine.Storage.{User}
use blogengine.Sqlite.Table.{done, failed, insert, update}
use blogengine.Sqlite.Database.{Db, Call, is_live, same_name, user_schema}
use blogengine.Sqlite.Query.{Op, exec, get, answer, affected, mapped}

abbrev pub new_user : Call → Db → Text → Text → User
new_user c db username password_hash = record {
  id = pos (suc db.user_seq);
  username = username;
  password_hash = password_hash;
  created_at = c.now;
  deleted_at = none;
}

unfoldable pub create_user : Text → Text → Op User
create_user username password_hash c db =
    let u = new_user c db username password_hash in
    elim (exec c (insert user_schema u true db.users)) [
      | failed e ↦ (err (mapped e), db)
      | done rows ↦ (ok u, record db { users = rows; user_seq = suc db.user_seq })
    ]

unfoldable pub get_user_by_id : ℤ → Op User
get_user_by_id id c db =
    (answer (get c (find (λ u. u.id ==ℤ id && is_live u.deleted_at) db.users)) mapped, db)

unfoldable pub get_user_by_username : Text → Op User
get_user_by_username username c db = (
  answer (get c (find (λ u. same_name u.username username && is_live u.deleted_at) db.users))
      mapped,
  db,
)

unfoldable pub change_user_password : ℤ → Text → Op (Unit {0})
change_user_password user_id new_hash c db =
    elim (exec c (
      update user_schema (λ u. u.id ==ℤ user_id && is_live u.deleted_at)
        (λ u. record u { password_hash = new_hash }) (λ u. u) db.users)) [
          | failed e ↦ (err (mapped e), db)
          | done (hit, rows) ↦ (affected c hit mapped, record db { users = rows })
        ]

-- `rows, _ := result.RowsAffected()`: an error leaves 0 rows.
unfoldable pub delete_user : ℤ → Op (Unit {0})
delete_user user_id c db =
    elim (exec c (
      update user_schema (λ u. u.id ==ℤ user_id && is_live u.deleted_at)
        (λ u. record u { deleted_at = some c.now }) (λ u. u) db.users)) [
          | failed e ↦ (err (mapped e), db)
          | done (hit, rows) ↦ (
            (if is_some c.rows_fault || not (is_some hit) then err (err_not_found ∷ []) else ok tt),
            record db { users = rows },
          )
        ]
