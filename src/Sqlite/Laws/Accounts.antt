-- ===== src/Sqlite/Laws/Accounts.antt =====
-- The names of users: one name, one account, whatever the case of its letters.
use blogengine.Prelude.{
  ℕ, suc, ◌≡◌, refl, sym, ap, ◌∙◌, inl, inr, Bool, true, false, ◌&&◌, List, [], ◌∷◌, none, some,
  find, All, Distinct, arith, Bool-cases,
}
use blogengine.Prelude.Int.{pos}
use blogengine.Prelude.Text.{Text, text_eq_refl, text_eq_sound, lower_ascii}
use blogengine.Errors.{err, sqlite_error, constraint_unique, err_unique_violation, map_sql_error}
use blogengine.Storage.{User}
use blogengine.Sqlite.Table.{insert, is_taken, failed}
use blogengine.Sqlite.Database.{Db, Call, is_live, same_name, user_check, user_schema}
use blogengine.Sqlite.Query.{exec}
use blogengine.Sqlite.Users.{new_user, create_user}
use blogengine.Sqlite.Invariant.Tables.{is_given, meets}
use blogengine.Sqlite.Invariant.Statements.{next-fresh}
use blogengine.Sqlite.Invariant.WellFormed.{IsWellFormed}

same_name_sound : (a b : Text) → same_name a b ≡ true → lower_ascii a ≡ lower_ascii b
unfolding same_name
same_name_sound a b h = text_eq_sound (lower_ascii a) (lower_ascii b) h

same_name_of : (a b : Text) → lower_ascii a ≡ lower_ascii b → same_name a b ≡ true
unfolding same_name
same_name_of a b e = rw e (text_eq_refl (lower_ascii b))

-- Two names that are both like a third are alike.
same_name_join : (a b n : Text) → same_name a n ≡ true → same_name b n ≡ true → same_name a b ≡ true
same_name_join a b n p q = same_name_of a b (same_name_sound a n p ∙ sym (same_name_sound b n q))

pub same_name_refl : (a : Text) → same_name a a ≡ true
same_name_refl a = same_name_of a a refl

same_name_comm : (a b : Text) → same_name a b ≡ true → same_name b a ≡ true
same_name_comm a b p = same_name_of b a (sym (same_name_sound a b p))

-- The users whose name is like `name`, but for the case of letters.
abbrev pub called : Text → User → Bool
called name u = same_name u.username name

module _ (name : Text) where
  others_not_called :
      (u : User) (users : List User)
      → called name u ≡ true
      → All (λ v. meets user_schema u v ≡ false) users
      → find (λ v. called name v && is_live v.deleted_at) users ≡ none
  others_not_called u [] h m = refl
  others_not_called u (v ∷ vs) h (m, ms) = elim (Bool-cases (called name v)) [
    | inl e ↦ absurd (ground (arith, m, same_name_join u.username v.username name h e))
    | inr e ↦ ground (arith, e, others_not_called u vs h ms)
  ]

  pub none_live :
      (users : List User) {u : User}
      → Distinct (meets user_schema) users
      → find (called name) users ≡ some u
      → is_live u.deleted_at ≡ false
      → find (λ v. called name v && is_live v.deleted_at) users ≡ none
  none_live [] d f l = refl
  none_live (v ∷ vs) {u} (dv, d) f l = elim (Bool-cases (called name v)) [
    | inl e ↦
        let same : v ≡ u = ground arith in
        ground (arith, others_not_called v vs e dv, ap (λ (x : User). is_live x.deleted_at) same)
    | inr e ↦ ground (arith, e, none_live vs {u = u} d (ground arith) l)
  ]

  taken_of_called :
      (seq : ℕ) (r : User) (users : List User) {u : User}
      → r.id ≡ pos (suc seq)
      → r.username ≡ name
      → All (λ v. is_given seq v.id ≡ true) users
      → find (called name) users ≡ some u
      → is_taken user_schema r users ≡ true
  taken_of_called seq r [] e n g f = ground arith
  taken_of_called seq r (v ∷ vs) {u} e n (gv, g) f = elim (Bool-cases (called name v)) [
    | inl t ↦ ground (arith, n, next-fresh seq v.id gv, same_name_comm v.username name t)
    | inr t ↦ ground (arith, taken_of_called seq r vs {u = u} e n g (ground arith))
  ]

insert_taken :
    (r : User) (users : List User)
    → user_check r ≡ true
    → is_taken user_schema r users ≡ true
    → insert user_schema r true users ≡ failed (sqlite_error constraint_unique)
unfolding insert
insert_taken r users a b = ground arith

-- A name can be registered once only, whatever the case of its letters and also after its user was
-- deleted: CreateUser then returns ErrUniqueViolation and changes nothing, if the name and the hash
-- meet the CHECKs of the table and the driver meets no error.
pub create_user_taken :
    (username password_hash : Text) (c : Call) (db : Db) {u : User}
    → IsWellFormed db
    → c.fault ≡ none
    → user_check (new_user c db username password_hash) ≡ true
    → find (called username) db.users ≡ some u
    → create_user username password_hash c db ≡ (err (err_unique_violation ∷ []), db)
unfolding create_user map_sql_error
create_user_taken username password_hash c db {u} w calm check f =
    let r = new_user c db username password_hash in
    let taken = taken_of_called username db.user_seq r db.users {u = u} refl refl w.users.given f in
    let refused : exec c (insert user_schema r true db.users)
        ≡ failed (sqlite_error constraint_unique) =
      ground (arith, calm, insert_taken r db.users check taken) in
    rw (refused, create_user)
