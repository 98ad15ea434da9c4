-- ===== src/Sqlite/Accounts/Refinement.antt =====
-- The store implements the directory of accounts: users.go, and the methods that touch no account.
use blogengine.Prelude.{
  ℕ, suc, ◌≡◌, refl, sym, ap, ◌∙◌, Bool, true, false, inl, inr, List, [], ◌∷◌, Option, none, some,
  find, All, All-find, find_sound, if◌then◌else◌, arith, Option-cases,
}
use mathlib.Core.Path.{fun_ext, subst}
use blogengine.Prelude.Int.{ℤ, pos, ◌==ℤ◌, ==ℤ_iff, ==ℤ_comm}
use blogengine.Prelude.Text.{Text}
use blogengine.Storage.{User}
use blogengine.Sqlite.Table.{insert, update, is_taken, done}
use blogengine.Sqlite.Database.{Db, Call, user_schema, is_live, same_name}
use blogengine.Sqlite.Query.{exec}
use blogengine.Sqlite.Users.{new_user, create_user, change_user_password, delete_user}
use blogengine.Sqlite.Invariant.Tables.{is_given}
use blogengine.Sqlite.Invariant.Statements.{next-fresh}
use blogengine.Sqlite.Invariant.Rows.{Reply-cases, exec-done, insert-done, update-done}
use blogengine.Sqlite.Invariant.WellFormed.{IsWellFormed}
use blogengine.Sqlite.Accounts.{
  Account, directory, put, IsFreeName, Request, register, rehash, close, Change, idle, registers,
  rehashes, closes,
}
use blogengine.Sqlite.Accounts.Rows.{
  is_user, account, account_in, directory_lem, kept, entry-replace,
}

-- the same users, the same directory
pub same_users :
    {q : Request} (db db' : Db) → db'.users ≡ db.users → Change q (directory db) (directory db')
same_users {q} db db' e =
    subst (Change q (directory db))
      (fun_ext λ k.
        directory_lem db k
        ∙ ap (λ (us : List User). account_in (find (is_user k) us)) (sym e)
        ∙ sym (directory_lem db' k))
      idle

-- the directory after one of its entries was put
changed :
    (db db' : Db) (k : ℤ) (a : Option Account)
    → ((j : ℤ)
        → account_in (find (is_user j) db'.users)
          ≡ (if j ==ℤ k then a else account_in (find (is_user j) db.users)))
    → put k a (directory db) ≡ directory db'
unfolding put
changed db db' k a h = fun_ext λ j. rw (directory_lem db j, directory_lem db' j) (sym (h j))

fresh_find :
    (seq : ℕ) (users : List User)
    → All (λ v. is_given seq v.id ≡ true) users
    → find (is_user (pos (suc seq))) users ≡ none
fresh_find seq [] g = refl
fresh_find seq (v ∷ vs) (gv, g) = ground (arith, next-fresh seq v.id gv, fresh_find seq vs g)

not_taken :
    (seq : ℕ) (r : User) (users : List User)
    → r.id ≡ pos (suc seq)
    → All (λ v. is_given seq v.id ≡ true) users
    → is_taken user_schema r users ≡ false
    → All (λ v. same_name r.username v.username ≡ false) users
not_taken seq r [] e g h = tt
not_taken seq r (v ∷ vs) e (gv, g) h =
    (ground (arith, e, next-fresh seq v.id gv), not_taken seq r vs e g (ground arith))

insert-free :
    (r : User) (refs : Bool) (rows : List User) {rows' : List User}
    → insert user_schema r refs rows ≡ done rows'
    → is_taken user_schema r rows ≡ false
unfolding insert
insert-free r refs rows h = ground arith

free_name :
    (db : Db) (name : Text)
    → All (λ v. same_name name v.username ≡ false) db.users
    → IsFreeName name (directory db)
free_name db name fresh j a h = elim (Option-cases (find (is_user j) db.users)) [
  | inl e ↦ ground (arith, directory_lem db j, e)
  | inr (v, e) ↦ ground (
    arith,
    directory_lem db j,
    e,
    All-find (λ v. same_name name v.username ≡ false) (is_user j) db.users {a = v} fresh e,
  )
]

pub create_user-Change :
    (username password_hash : Text) (c : Call) (db : Db)
    → IsWellFormed db
    → Change
        (register username password_hash)
        (directory db)
        (directory (create_user username password_hash c db).1)
unfolding create_user
create_user-Change username password_hash c db w =
    let u = new_user c db username password_hash in
    elim (Reply-cases (exec c (insert user_schema u true db.users))) [
      | inl (e, p) ↦ rw (p, create_user) idle
      | inr (rows, p) ↦
          let q = exec-done c (insert user_schema u true db.users) p in
          let (grown, _) = insert-done user_schema u true db.users q in
          let db' = record db { users = rows; user_seq = suc db.user_seq } in
          rw (p, create_user)
            (subst (Change (register username password_hash) (directory db))
              (changed db db' u.id (some (account u))
                (λ j. rw grown (ground (arith, ==ℤ_comm u.id j))))
              (registers u.id (account u)
                (directory_lem db u.id
                  ∙ ap account_in (fresh_find db.user_seq db.users w.users.given))
                (free_name db username (
                  not_taken db.user_seq u db.users refl w.users.given
                    (insert-free u true db.users q)))))
    ]

-- an UPDATE of one live account that keeps its key
module _ {q : Request} (k : ℤ) (assign : User → User)
    (keeps : (x : User) → (assign x).id ≡ x.id) where
  updated :
      (db : Db) (hit : Option User) (rows : List User)
      → ((old : User)
          → find (is_user k) db.users ≡ some old
          → Change q (directory db) (put k (account_in (kept (assign old))) (directory db)))
      → update user_schema (is_user k) assign (λ u. u) db.users ≡ done (hit, rows)
      → Change q (directory db) (directory (record db { users = rows }))
  updated db hit rows step h =
      let db' = record db { users = rows } in
      elim (update-done user_schema (is_user k) assign (λ u. u) db.users hit rows h) [
        | inl (_, _, same) ↦ same_users db db' same
        | inr (old, found, _, new) ↦
            let its_key : k ≡ (assign old).id = sym (
              keeps old
              ∙ (==ℤ_iff old.id k).0 (ground (arith, find_sound (is_user k) db.users found))) in
            subst (Change q (directory db))
              (changed db db' k (account_in (kept (assign old))) (λ j.
                rw (new, its_key)
                  (entry-replace (assign old) old db.users j (rw (sym its_key) found))))
              (step old found)
      ]

-- the entry of an account that is found
entry :
    (db : Db) (k : ℤ) (u : User)
    → find (is_user k) db.users ≡ some u
    → directory db k ≡ some (account u)
entry db k u f = directory_lem db k ∙ ap account_in f

rehashed :
    (db : Db) (k : ℤ) (hash : Text) (old : User)
    → find (is_user k) db.users ≡ some old
    → Change
        (rehash k hash)
        (directory db)
        (put k (account_in (kept (record old { password_hash = hash }))) (directory db))
rehashed db k hash old f =
    let live : is_live old.deleted_at ≡ true = ground (arith, find_sound (is_user k) db.users f) in
    let new : kept (record old { password_hash = hash })
        ≡ some (record old { password_hash = hash }) =
      rw live refl in
    subst (λ o. Change (rehash k hash) (directory db) (put k (account_in o) (directory db)))
      (sym new) (rehashes k (account old) hash (entry db k old f))

pub change_user_password-Change :
    (user_id : ℤ) (new_hash : Text) (c : Call) (db : Db)
    → Change
        (rehash user_id new_hash)
        (directory db)
        (directory (change_user_password user_id new_hash c db).1)
unfolding change_user_password
change_user_password-Change user_id new_hash c db =
    let assign = λ (u : User). record u { password_hash = new_hash } in
    elim (Reply-cases (exec c (update user_schema (is_user user_id) assign (λ u. u) db.users))) [
      | inl (e, p) ↦ rw (p, change_user_password) idle
      | inr ((hit, rows), p) ↦
          let q = exec-done c (update user_schema (is_user user_id) assign (λ u. u) db.users) p in
          rw (p, change_user_password)
            (updated user_id assign (λ u. refl) db hit rows
              (λ old f. rehashed db user_id new_hash old f) q)
    ]

pub delete_user-Change :
    (user_id : ℤ) (c : Call) (db : Db)
    → Change (close user_id) (directory db) (directory (delete_user user_id c db).1)
unfolding delete_user
delete_user-Change user_id c db =
    let assign = λ (u : User). record u { deleted_at = some c.now } in
    elim (Reply-cases (exec c (update user_schema (is_user user_id) assign (λ u. u) db.users))) [
      | inl (e, p) ↦ rw (p, delete_user) idle
      | inr ((hit, rows), p) ↦
          let q = exec-done c (update user_schema (is_user user_id) assign (λ u. u) db.users) p in
          rw (p, delete_user)
            (updated user_id assign (λ u. refl) db hit rows
              (λ old f. closes user_id (account old) (entry db user_id old f)) q)
    ]
