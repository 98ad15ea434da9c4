-- ===== src/Sqlite/Bootstrap.antt =====
-- storage/sqlite/bootstrap.go. `hash` is what bcrypt returns for the default password.
use blogengine.Prelude.{◌∷◌, if◌then◌else◌}
use blogengine.Prelude.Text.{Text, codes}
use blogengine.Errors.{
  Result, ok, err, errors_is_not_found, err_password_hash, err_create_admin_user,
}
use blogengine.Storage.{User}
use blogengine.Sqlite.Database.{Db, Call}
use blogengine.Sqlite.Query.{Op}
use blogengine.Sqlite.Users.{create_user, get_user_by_username}

abbrev pub default_admin_username : Text
default_admin_username = codes "admin"

abbrev wrap_create : Result User × Db → Result User × Db
wrap_create (ok u, db) = (ok u, db)
wrap_create (err e, db) = (err (err_create_admin_user ∷ e), db)

unfoldable pub create_admin_user : Result Text → Op User
create_admin_user (err e) c db = (err (err_password_hash ∷ e), db)
create_admin_user (ok hash) c db = wrap_create (create_user default_admin_username hash c db)

-- getOrCreateAdminUser: `q` is the call of the lookup, `c` that of the INSERT
unfoldable pub get_or_create_admin_user : Result Text → Call → Op User
unfolding create_admin_user
get_or_create_admin_user hash q c db = elim (get_user_by_username default_admin_username q db).0 [
  | ok u ↦ (ok u, db)
  | err e ↦ if errors_is_not_found e then create_admin_user hash c db else (err e, db)
]

abbrev forget : Result User × Db → Result (Unit {0}) × Db
forget (ok u, db) = (ok tt, db)
forget (err e, db) = (err e, db)

unfoldable pub bootstrap : Result Text → Call → Op (Unit {0})
unfolding get_or_create_admin_user
bootstrap hash q c db = forget (get_or_create_admin_user hash q c db)
