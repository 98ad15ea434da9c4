-- ===== src/Sqlite/Invariant/Users.antt =====
-- The methods of users.go keep the database well formed.
use blogengine.Prelude.{suc, ◌≡◌, refl, Bool, true, ◌&&◌, inl, inr, List, ◌∷◌, Option, some, arith}
use blogengine.Prelude.Int.{ℤ, ◌==ℤ◌}
use blogengine.Prelude.Text.{Text}
use blogengine.Storage.{User}
use blogengine.Sqlite.Table.{insert, update, done}
use blogengine.Sqlite.Database.{Db, Call, user_schema, is_live}
use blogengine.Sqlite.Query.{exec}
use blogengine.Sqlite.Users.{new_user, create_user, change_user_password, delete_user}
use blogengine.Sqlite.Invariant.Statements.{insert-IsSound, update-IsSound}
use blogengine.Sqlite.Invariant.Rows.{Reply-cases, exec-done, insert-done, has_key-update}
use blogengine.Sqlite.Invariant.WellFormed.{
  IsWellFormed, user_schema-IsSymmetric, KeepsUsers, with_users,
}

KeepsUsers-cons : (u : User) (users : List User) → KeepsUsers users (u ∷ users)
KeepsUsers-cons u users k h = ground arith

pub create_user-IsWellFormed :
    (username password_hash : Text) (c : Call) (db : Db)
    → IsWellFormed db
    → IsWellFormed (create_user username password_hash c db).1
unfolding create_user
create_user-IsWellFormed username password_hash c db w =
    let u = new_user c db username password_hash in
    elim (Reply-cases (exec c (insert user_schema u true db.users))) [
      | inl (e, p) ↦ rw (p, create_user) w
      | inr (rows, p) ↦
          let q = exec-done c (insert user_schema u true db.users) p in
          let (grown, _) = insert-done user_schema u true db.users q in
          rw (p, create_user)
            (with_users db rows (suc db.user_seq) w
              (insert-IsSound user_schema db.user_seq u true db.users refl w.users q)
              (rw grown (KeepsUsers-cons u db.users)))
    ]

-- Any UPDATE of one user that keeps its key.
module _ (where_ : User → Bool) (assign : User → User)
    (keeps : (x : User) → (assign x).id ≡ x.id) where
  update_user-IsWellFormed :
      (c : Call) (db : Db) {hit : Option User} {rows : List User}
      → IsWellFormed db
      → exec c (update user_schema where_ assign (λ u. u) db.users) ≡ done (hit, rows)
      → IsWellFormed (record db { users = rows })
  update_user-IsWellFormed c db {hit} {rows} w p =
      let q = exec-done c (update user_schema where_ assign (λ u. u) db.users) p in
      with_users db rows db.user_seq w
        (update-IsSound user_schema user_schema-IsSymmetric where_ assign (λ u. u) keeps db.user_seq
          db.users hit rows w.users q)
        (λ k h. rw (has_key-update user_schema where_ assign (λ u. u) k db.users hit rows q) h)

pub change_user_password-IsWellFormed :
    (user_id : ℤ) (new_hash : Text) (c : Call) (db : Db)
    → IsWellFormed db
    → IsWellFormed (change_user_password user_id new_hash c db).1
unfolding change_user_password
change_user_password-IsWellFormed user_id new_hash c db w =
    let where_ = λ (u : User). u.id ==ℤ user_id && is_live u.deleted_at in
    let assign = λ (u : User). record u { password_hash = new_hash } in
    elim (Reply-cases (exec c (update user_schema where_ assign (λ u. u) db.users))) [
      | inl (e, p) ↦ rw (p, change_user_password) w
      | inr ((hit, rows), p) ↦
          rw (p, change_user_password) (update_user-IsWellFormed where_ assign (λ u. refl) c db w p)
    ]

pub delete_user-IsWellFormed :
    (user_id : ℤ) (c : Call) (db : Db) → IsWellFormed db → IsWellFormed (delete_user user_id c db).1
unfolding delete_user
delete_user-IsWellFormed user_id c db w =
    let where_ = λ (u : User). u.id ==ℤ user_id && is_live u.deleted_at in
    let assign = λ (u : User). record u { deleted_at = some c.now } in
    elim (Reply-cases (exec c (update user_schema where_ assign (λ u. u) db.users))) [
      | inl (e, p) ↦ rw (p, delete_user) w
      | inr ((hit, rows), p) ↦
          rw (p, delete_user) (update_user-IsWellFormed where_ assign (λ u. refl) c db w p)
    ]
