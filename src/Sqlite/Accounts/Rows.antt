-- ===== src/Sqlite/Accounts/Rows.antt =====
-- The directory of a list of rows: what INSERT and UPDATE of a user do to it.
use blogengine.Prelude.{
  ◌≡◌, refl, ap, ◌∙◌, Bool, true, false, ◌&&◌, inl, inr, List, [], ◌∷◌, Option, none, some, find,
  if◌then◌else◌, arith, Bool-cases, Option-cases,
}
use blogengine.Prelude.Int.{ℤ, ◌==ℤ◌, ==ℤ_iff, ==ℤ_refl, ==ℤ_comm}
use blogengine.Storage.{User}
use blogengine.Sqlite.Table.{replace}
use blogengine.Sqlite.Database.{Db, user_schema, is_live}
use blogengine.Sqlite.Accounts.{Account, directory}

-- the row that GetUserByID selects
abbrev pub is_user : ℤ → User → Bool
is_user k u = u.id ==ℤ k && is_live u.deleted_at

abbrev pub account : User → Account
account u = record { name = u.username; password_hash = u.password_hash }

abbrev pub account_in : Option User → Option Account
account_in none = none
account_in (some u) = some (account u)

pub directory_lem : (db : Db) (k : ℤ) → directory db k ≡ account_in (find (is_user k) db.users)
unfolding directory
directory_lem db k = elim (Option-cases (find (is_user k) db.users)) [
  | inl e ↦ ground (arith, e)
  | inr (u, e) ↦ ground (arith, e)
]

-- replacing the rows of one key does nothing to another key
find_other :
    (k : ℤ) (r : User) (rows : List User)
    → (r.id ==ℤ k) ≡ false
    → find (is_user k) (replace user_schema r rows) ≡ find (is_user k) rows
unfolding replace
find_other k r [] h = refl
find_other k r (x ∷ xs) h = elim (Bool-cases (x.id ==ℤ r.id)) [
  | inl e ↦ ground (arith, e, h, find_other k r xs h, (==ℤ_iff x.id r.id).0 e)
  | inr e ↦ ground (arith, e, find_other k r xs h)
]

-- where a row of the key is replaced by a live one, that one is found
find_replaced :
    (r old : User) (rows : List User)
    → is_live r.deleted_at ≡ true
    → find (is_user r.id) rows ≡ some old
    → find (is_user r.id) (replace user_schema r rows) ≡ some r
unfolding replace
find_replaced r old [] l f = ground arith
find_replaced r old (x ∷ xs) l f = elim (Bool-cases (x.id ==ℤ r.id)) [
  | inl e ↦ ground (arith, e, l)
  | inr e ↦ ground (arith, e, find_replaced r old xs l)
]

-- where they are replaced by a deleted one, none is found
find_deleted :
    (r : User) (rows : List User)
    → is_live r.deleted_at ≡ false
    → find (is_user r.id) (replace user_schema r rows) ≡ none
unfolding replace
find_deleted r [] l = refl
find_deleted r (x ∷ xs) l = elim (Bool-cases (x.id ==ℤ r.id)) [
  | inl e ↦ ground (arith, e, l, find_deleted r xs l)
  | inr e ↦ ground (arith, e, find_deleted r xs l)
]

-- what is left of a row for a query: a deleted row is none
abbrev pub kept : User → Option User
kept r = if is_live r.deleted_at then some r else none

find_same :
    (r old : User) (rows : List User)
    → find (is_user r.id) rows ≡ some old
    → find (is_user r.id) (replace user_schema r rows) ≡ kept r
find_same r old rows f = elim (Bool-cases (is_live r.deleted_at)) [
  | inl l ↦ rw l (find_replaced r old rows l f)
  | inr l ↦ rw l (find_deleted r rows l)
]

-- the entry of a key after the row of one account is replaced
pub entry-replace :
    (r old : User) (rows : List User) (j : ℤ)
    → find (is_user r.id) rows ≡ some old
    → account_in (find (is_user j) (replace user_schema r rows))
      ≡ (if j ==ℤ r.id then account_in (kept r) else account_in (find (is_user j) rows))
entry-replace r old rows j f = elim (Bool-cases (j ==ℤ r.id)) [
  | inl e ↦ rw ((==ℤ_iff j r.id).0 e, ==ℤ_refl r.id) (ap account_in (find_same r old rows f))
  | inr e ↦ rw e (ap account_in (find_other j r rows (==ℤ_comm r.id j ∙ e)))
]
