-- ===== src/Sqlite/Accounts/Store.antt =====
-- Every method of the store is a step of the directory of accounts.
use blogengine.Prelude.{◌≡◌, ap, arith, inl, inr, ◌⊎◌, Bool-cases}
use blogengine.Prelude.Int.{ℤ}
use blogengine.Prelude.Text.{Text}
use blogengine.Errors.{Result-cases, Error, Result, ok, err, errors_is_not_found}
use blogengine.Storage.{
  Visibility, CreateBlogParams, UpdateBlogParams, UpdateBlogRegistrationParams, CreatePostParams,
}
use blogengine.Sqlite.Database.{Db, Call}
use blogengine.Sqlite.Comments.{create_comment, update_comment, delete_comment}
use blogengine.Sqlite.Blogs.{insert_blog, create_blog}
use blogengine.Sqlite.Blogs.Updates.{
  update_blog, update_blog_visibility, update_blog_registration, delete_blog,
}
use blogengine.Sqlite.Posts.{create_post, insert_post}
use blogengine.Sqlite.Users.{create_user, get_user_by_username}
use blogengine.Sqlite.Bootstrap.{
  default_admin_username, bootstrap, get_or_create_admin_user, create_admin_user,
}
use blogengine.Sqlite.Invariant.WellFormed.{IsWellFormed}
use blogengine.Sqlite.Invariant.Methods
use blogengine.Sqlite.Accounts.{
  directory, Request, register, rehash, close, no_request, Change, idle,
}
use blogengine.Sqlite.Accounts.Refinement.{
  same_users, create_user-Change, change_user_password-Change, delete_user-Change,
}

pub create_comment_users :
    (p u : ℤ) (t : Text) (c : Call) (db : Db) → (create_comment p u t c db).1.users ≡ db.users
unfolding create_comment
create_comment_users p u t c db = ground arith

update_comment_users :
    (k u : ℤ) (t : Text) (c : Call) (db : Db) → (update_comment k u t c db).1.users ≡ db.users
unfolding update_comment
update_comment_users k u t c db = ground arith

pub delete_comment_users :
    (k u : ℤ) (c : Call) (db : Db) → (delete_comment k u c db).1.users ≡ db.users
unfolding delete_comment
delete_comment_users k u c db = ground arith

create_blog_users :
    (p : CreateBlogParams) (c : Call) (db : Db) → (create_blog p c db).1.users ≡ db.users
unfolding create_blog insert_blog
create_blog_users p c db = ground arith

update_blog_users :
    (p : UpdateBlogParams) (c : Call) (db : Db) → (update_blog p c db).1.users ≡ db.users
unfolding update_blog
update_blog_users p c db = ground arith

update_blog_visibility_users :
    (b o : ℤ) (v : Visibility) (c : Call) (db : Db)
    → (update_blog_visibility b o v c db).1.users ≡ db.users
unfolding update_blog_visibility
update_blog_visibility_users b o v c db = ground arith

update_blog_registration_users :
    (p : UpdateBlogRegistrationParams) (c : Call) (db : Db)
    → (update_blog_registration p c db).1.users ≡ db.users
unfolding update_blog_registration
update_blog_registration_users p c db = ground arith

delete_blog_users : (b o : ℤ) (c : Call) (db : Db) → (delete_blog b o c db).1.users ≡ db.users
unfolding delete_blog
delete_blog_users b o c db = ground arith

create_post_users :
    (p : CreatePostParams) (g : Result Text) (q c : Call) (db : Db)
    → (create_post p g q c db).1.users ≡ db.users
unfolding create_post insert_post
create_post_users p g q c db = ground arith

no_bootstrap : (e : Error) (q c : Call) (db : Db) → (bootstrap (err e) q c db).1 ≡ db
unfolding bootstrap get_or_create_admin_user create_admin_user
no_bootstrap e q c db =
    ground (arith, Result-cases (get_user_by_username default_admin_username q db).0)

-- the bootstrap is one CreateUser, or nothing
bootstrap_cases :
    (h : Text) (q c : Call) (db : Db)
    → ((bootstrap (ok h) q c db).1 ≡ db)
      ⊎ ((bootstrap (ok h) q c db).1 ≡ (create_user default_admin_username h c db).1)
unfolding bootstrap get_or_create_admin_user create_admin_user
bootstrap_cases h q c db =
    elim (Result-cases (get_user_by_username default_admin_username q db).0) [
      | inl (u, found) ↦ inl (ground (arith, found))
      | inr (e, missed) ↦ elim (Bool-cases (errors_is_not_found e)) [
        | inl n ↦
            inr (
              ground (arith, missed, n, Result-cases (create_user default_admin_username h c db).0))
        | inr n ↦ inl (ground (arith, missed, n))
      ]
    ]

-- what a method asks of the accounts; the bootstrap asks for the administrator, if it has a hash
unfoldable pub request_of : Methods.Method → Request
request_of (Methods.create_user n h) = register n h
request_of (Methods.change_user_password k h) = rehash k h
request_of (Methods.delete_user k) = close k
request_of (Methods.bootstrap (ok h) q) = register default_admin_username h
request_of _ = no_request

bootstrap-Change :
    (hash : Result Text) (q c : Call) (db : Db)
    → IsWellFormed db
    → Change
        (request_of (Methods.bootstrap hash q))
        (directory db)
        (directory (bootstrap hash q c db).1)
unfolding request_of
bootstrap-Change (err e) q c db w =
    same_users db _ (ap (λ (d : Db). d.users) (no_bootstrap e q c db))
bootstrap-Change (ok h) q c db w = elim (bootstrap_cases h q c db) [
  | inl e ↦ rw e idle
  | inr e ↦ rw e (create_user-Change default_admin_username h c db w)
]

-- The store implements the directory of accounts, on a well-formed database: whatever error of the
-- driver it meets, a method leaves the accounts that GetUserByID finds as they were, or does to them
-- what it was asked for and nothing else. CreateUser and the bootstrap add one account with the name
-- and the hash that they were given, under an id that had none and a name that no account has in any
-- case; ChangeUserPassword replaces the hash of the account with the given id; DeleteUser takes the
-- account with the given id out; the methods of blogs, posts and comments do nothing to accounts.
pub perform-Change :
    (m : Methods.Method) (c : Call) (db : Db)
    → IsWellFormed db
    → Change (request_of m) (directory db) (directory (Methods.perform m c db))
unfolding Methods.perform request_of
perform-Change (Methods.create_user n h) c db w = create_user-Change n h c db w
perform-Change (Methods.change_user_password k h) c db w = change_user_password-Change k h c db
perform-Change (Methods.delete_user k) c db w = delete_user-Change k c db
perform-Change (Methods.create_comment p u t) c db w =
    same_users db _ (create_comment_users p u t c db)
perform-Change (Methods.update_comment k u t) c db w =
    same_users db _ (update_comment_users k u t c db)
perform-Change (Methods.delete_comment k u) c db w = same_users db _ (delete_comment_users k u c db)
perform-Change (Methods.create_blog p) c db w = same_users db _ (create_blog_users p c db)
perform-Change (Methods.update_blog p) c db w = same_users db _ (update_blog_users p c db)
perform-Change (Methods.update_blog_visibility b o v) c db w =
    same_users db _ (update_blog_visibility_users b o v c db)
perform-Change (Methods.update_blog_registration p) c db w =
    same_users db _ (update_blog_registration_users p c db)
perform-Change (Methods.delete_blog b o) c db w = same_users db _ (delete_blog_users b o c db)
perform-Change (Methods.create_post p g q) c db w = same_users db _ (create_post_users p g q c db)
perform-Change (Methods.bootstrap h q) c db w = bootstrap-Change h q c db w
