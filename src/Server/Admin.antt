-- ===== src/Server/Admin.antt =====
-- cmd/blogengine/main.go: the administrator that main looks for, or makes.
use blogengine.Prelude.{◌≡◌, refl, sym, ap, ◌∙◌, inl, inr, some, arith, Bool-cases}
use blogengine.Prelude.Text.{Text}
use blogengine.Errors.{Result-cases, Result, ok, err, errors_is_not_found}
use blogengine.Storage.{User}
use blogengine.Sqlite.Database.{Db, Call}
use blogengine.Sqlite.Users.{get_user_by_username}
use blogengine.Sqlite.Bootstrap.{default_admin_username}
use blogengine.Sqlite.Invariant.WellFormed.{IsWellFormed}
use blogengine.Sqlite.Invariant.Posts.{bootstrap-IsWellFormed}
use blogengine.Sqlite.Laws.FirstAccount.{admin_of, lookup_inv, bootstrap_leaves_admin}
use blogengine.Server.{ensure_admin}

-- the administrator's account is there, and live
abbrev pub HasAdmin : Db → Type 0
HasAdmin db = (u : User) × (admin_of db ≡ some u)

pub ensure_admin_inv :
    (hash : Result Text) (first second insert : Call) (db : Db) {db' : Db}
    → ensure_admin hash first second insert db ≡ (ok tt, db')
    → HasAdmin db'
unfolding ensure_admin
ensure_admin_inv hash first second insert db {db'} h =
    looked_up (get_user_by_username default_admin_username first db).0 refl
  where
    looked_up :
        (r : Result User)
        → (get_user_by_username default_admin_username first db).0 ≡ r
        → HasAdmin db'
    looked_up (ok u) p =
        let same : db ≡ db' = ground (arith, p, h) in
        (u, ap admin_of (sym same) ∙ lookup_inv first db {u = u} p)
    looked_up (err e) p = elim (Bool-cases (errors_is_not_found e)) [
      | inl n ↦ bootstrap_leaves_admin hash second insert db {db' = db'} (ground (arith, p, n, h))
      | inr n ↦ absurd (ground (arith, p, n, h))
    ]

pub ensure_admin-IsWellFormed :
    (hash : Result Text) (first second insert : Call) (db : Db)
    → IsWellFormed db
    → IsWellFormed (ensure_admin hash first second insert db).1
unfolding ensure_admin
ensure_admin-IsWellFormed hash first second insert db w =
    elim (Result-cases (get_user_by_username default_admin_username first db).0) [
      | inl (u, h) ↦ rw (h, ensure_admin) w
      | inr (e, h) ↦ elim (Bool-cases (errors_is_not_found e)) [
        | inl n ↦ rw (h, n, ensure_admin) (bootstrap-IsWellFormed hash second insert db w)
        | inr n ↦ rw (h, n, ensure_admin) w
      ]
    ]
