-- ===== src/Sqlite/Laws/FirstAccount.antt =====
-- Looking up a new account, and the bootstrap of the administrator.
use blogengine.Prelude.{
  ◌≡◌, refl, sym, ap, ◌∙◌, inl, inr, true, false, ◌&&◌, [], ◌∷◌, Option, none, some, find, arith,
  Bool-cases,
}
use blogengine.Prelude.Text.{Text}
use blogengine.Errors.{
  Result, ok, err, err_not_found, err_unique_violation, err_create_admin_user, map_sql_error,
  errors_is_not_found,
}
use blogengine.Storage.{User}
use blogengine.Sqlite.Table.{insert}
use blogengine.Sqlite.Database.{Db, Call, is_live, same_name, user_check, user_schema}
use blogengine.Sqlite.Query.{exec}
use blogengine.Sqlite.Users.{new_user, create_user, get_user_by_username}
use blogengine.Sqlite.Bootstrap.{
  default_admin_username, create_admin_user, get_or_create_admin_user, bootstrap,
}
use blogengine.Sqlite.Invariant.Rows.{Reply-cases, exec-done, insert-done}
use blogengine.Sqlite.Invariant.WellFormed.{IsWellFormed}
use blogengine.Sqlite.Laws.Accounts.{called, none_live, same_name_refl, create_user_taken}

pub create_user_inv :
    (username password_hash : Text) (c : Call) (db : Db) {u : User} {db' : Db}
    → create_user username password_hash c db ≡ (ok u, db')
    → (u ≡ new_user c db username password_hash) × (db'.users ≡ u ∷ db.users)
unfolding create_user
create_user_inv username password_hash c db h =
    let r = new_user c db username password_hash in
    elim (Reply-cases (exec c (insert user_schema r true db.users))) [
      | inl (e, q) ↦ absurd (ground (arith, q))
      | inr (rows, q) ↦
          let (grown, _) =
            insert-done user_schema r true db.users
              (exec-done c (insert user_schema r true db.users) q) in
          (ground (arith, q), ground (arith, q, grown))
    ]

-- An account that was created is found under its name, whatever the case of the letters that it is
-- asked for with.
pub get_user-create_user :
    (username password_hash spelling : Text) (c later : Call) (db : Db) {u : User} {db' : Db}
    → create_user username password_hash c db ≡ (ok u, db')
    → same_name username spelling ≡ true
    → later.fault ≡ none
    → get_user_by_username spelling later db' ≡ (ok u, db')
unfolding get_user_by_username
get_user-create_user username password_hash spelling c later db h same calm =
    let (made, kept) = create_user_inv username password_hash c db h in
    ground (
      arith,
      kept,
      made,
      same,
      calm,
      ap (λ (x : User). x.username) made,
      ap (λ (x : User). x.deleted_at) made,
    )

-- a live user has the administrator's name
abbrev pub admin_of : Db → Option User
admin_of db =
    find (λ u. same_name u.username default_admin_username && is_live u.deleted_at) db.users

-- the lookup of the bootstrap, by what it finds
lookup_found :
    (q : Call) (db : Db) {u : User}
    → q.fault ≡ none
    → admin_of db ≡ some u
    → get_user_by_username default_admin_username q db ≡ (ok u, db)
unfolding get_user_by_username
lookup_found q db calm f = ground (arith, calm, f)

lookup_missing :
    (q : Call) (db : Db)
    → q.fault ≡ none
    → admin_of db ≡ none
    → get_user_by_username default_admin_username q db ≡ (err (err_not_found ∷ []), db)
unfolding get_user_by_username map_sql_error
lookup_missing q db calm f = ground (arith, calm, f)

pub lookup_inv :
    (q : Call) (db : Db) {u : User}
    → (get_user_by_username default_admin_username q db).0 ≡ ok u
    → admin_of db ≡ some u
unfolding get_user_by_username
lookup_inv q db h = ground arith

bootstrap_found :
    (hash : Result Text) (q c : Call) (db : Db) {u : User}
    → q.fault ≡ none
    → admin_of db ≡ some u
    → bootstrap hash q c db ≡ (ok tt, db)
unfolding bootstrap get_or_create_admin_user
bootstrap_found hash q c db calm f = ground (arith, lookup_found q db calm f)

-- After a soft delete of the administrator the bootstrap cannot succeed: its lookup finds no live
-- user, and its INSERT meets the name of the deleted one. It returns ErrCreateAdminUser around
-- ErrUniqueViolation, and changes nothing. (The database is well formed, the hash and the key of the
-- new row meet the table's CHECKs, and the driver meets no error.)
pub bootstrap_deleted_admin :
    (hash : Text) (q c : Call) (db : Db) {u : User}
    → IsWellFormed db
    → q.fault ≡ none
    → c.fault ≡ none
    → user_check (new_user c db default_admin_username hash) ≡ true
    → find (called default_admin_username) db.users ≡ some u
    → is_live u.deleted_at ≡ false
    → bootstrap (ok hash) q c db ≡ (err (err_create_admin_user ∷ err_unique_violation ∷ []), db)
unfolding bootstrap get_or_create_admin_user create_admin_user errors_is_not_found
bootstrap_deleted_admin hash q c db {u} w qcalm ccalm check f dead =
    let missing = none_live default_admin_username db.users {u = u} w.users.distinct f dead in
    ground (
      arith,
      lookup_missing q db qcalm missing,
      create_user_taken default_admin_username hash c db {u = u} w ccalm check f,
    )

created_admin :
    (hash : Text) (c : Call) (db : Db) {u : User} {db' : Db}
    → create_user default_admin_username hash c db ≡ (ok u, db')
    → admin_of db' ≡ some u
created_admin hash c db {u} {db'} h =
    let (made, kept) = create_user_inv default_admin_username hash c db {u = u} {db' = db'} h in
    ground (
      arith,
      kept,
      same_name_refl default_admin_username,
      ap (λ (x : User). x.username) made,
      ap (λ (x : User). x.deleted_at) made,
    )

create_admin_user_inv :
    (hash : Result Text) (c : Call) (db : Db) {u : User} {db' : Db}
    → create_admin_user hash c db ≡ (ok u, db')
    → admin_of db' ≡ some u
unfolding create_admin_user
create_admin_user_inv (err e) c db h = absurd (ground arith)
create_admin_user_inv (ok hash) c db {u} {db'} h =
    wrapped (create_user default_admin_username hash c db) refl
  where
    wrapped :
        (r : Result User × Db)
        → create_user default_admin_username hash c db ≡ r
        → admin_of db' ≡ some u
    wrapped (ok v, db'') q = created_admin hash c db {u = u} {db' = db'} (ground (arith, q))
    wrapped (err e, db'') q = absurd (ground (arith, q))

pub bootstrap_leaves_admin :
    (hash : Result Text) (q c : Call) (db : Db) {db' : Db}
    → bootstrap hash q c db ≡ (ok tt, db')
    → (u : User) × (admin_of db' ≡ some u)
unfolding bootstrap get_or_create_admin_user
bootstrap_leaves_admin hash q c db {db'} h =
    looked_up (get_user_by_username default_admin_username q db).0 refl
  where
    created :
        (r : Result User × Db)
        → get_or_create_admin_user hash q c db ≡ r
        → create_admin_user hash c db ≡ r
        → (u : User) × (admin_of db' ≡ some u)
    created (ok u, db'') g p =
        (u, create_admin_user_inv hash c db {u = u} {db' = db'} (ground (arith, g, p)))
    created (err e, db'') g p = absurd (ground (arith, g, p))

    looked_up :
        (r : Result User)
        → (get_user_by_username default_admin_username q db).0 ≡ r
        → (u : User) × (admin_of db' ≡ some u)
    looked_up (ok u) p =
        let same : db ≡ db' = ground (arith, p) in
        (u, ap admin_of (sym same) ∙ lookup_inv q db {u = u} p)
    looked_up (err e) p = elim (Bool-cases (errors_is_not_found e)) [
      | inl n ↦
          created (create_admin_user hash c db) (rw (p, n, get_or_create_admin_user) refl) refl
      | inr n ↦ absurd (ground (arith, p, n))
    ]

-- A second bootstrap finds the account of the first and changes nothing.
pub bootstrap_twice :
    (hash hash' : Result Text) (q c q' c' : Call) (db : Db) {db' : Db}
    → q'.fault ≡ none
    → bootstrap hash q c db ≡ (ok tt, db')
    → bootstrap hash' q' c' db' ≡ (ok tt, db')
bootstrap_twice hash hash' q c q' c' db {db'} calm h =
    let (u, f) = bootstrap_leaves_admin hash q c db h in
    bootstrap_found hash' q' c' db' {u = u} calm f
