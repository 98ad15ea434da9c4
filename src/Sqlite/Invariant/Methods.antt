-- ===== src/Sqlite/Invariant/Methods.antt =====
-- The store as a state machine: the methods of storage.Store and of the bootstrap that change the
-- database, run in any order and with any errors of the driver between them.
use blogengine.Prelude.Int.{ℤ}
use blogengine.Prelude.Text.{Text}
use blogengine.Errors.{Result}
use blogengine.Storage.{
  Visibility, CreateBlogParams, UpdateBlogParams, UpdateBlogRegistrationParams, CreatePostParams,
}
use blogengine.Sqlite.Database.{Db, Call, empty_db}
use blogengine.Sqlite.Users
use blogengine.Sqlite.Comments
use blogengine.Sqlite.Blogs
use blogengine.Sqlite.Blogs.Updates
use blogengine.Sqlite.Posts
use blogengine.Sqlite.Bootstrap
use blogengine.Sqlite.Invariant.WellFormed.{IsWellFormed, empty_db-IsWellFormed}
use blogengine.Sqlite.Invariant.Users.{
  create_user-IsWellFormed, change_user_password-IsWellFormed, delete_user-IsWellFormed,
}
use blogengine.Sqlite.Invariant.Comments.{
  create_comment-IsWellFormed, update_comment-IsWellFormed, delete_comment-IsWellFormed,
}
use blogengine.Sqlite.Invariant.Blogs.{
  create_blog-IsWellFormed, update_blog-IsWellFormed, update_blog_visibility-IsWellFormed,
  update_blog_registration-IsWellFormed, delete_blog-IsWellFormed,
}
use blogengine.Sqlite.Invariant.Posts.{create_post-IsWellFormed, bootstrap-IsWellFormed}

pub data Method : Type 0 where
  create_user : (username password_hash : Text) → Method
  change_user_password : (user_id : ℤ) (new_hash : Text) → Method
  delete_user : (user_id : ℤ) → Method
  create_comment : (post_id user_id : ℤ) (content : Text) → Method
  update_comment : (comment_id user_id : ℤ) (content : Text) → Method
  delete_comment : (comment_id user_id : ℤ) → Method
  create_blog : CreateBlogParams → Method
  update_blog : UpdateBlogParams → Method
  update_blog_visibility : (blog_id owner_id : ℤ) (visibility : Visibility) → Method
  update_blog_registration : UpdateBlogRegistrationParams → Method
  delete_blog : (blog_id owner_id : ℤ) → Method
  create_post : CreatePostParams → (generated : Result Text) (lookup : Call) → Method
  bootstrap : (hash : Result Text) (lookup : Call) → Method

-- the database after a method
unfoldable pub perform : Method → Call → Db → Db
perform (create_user n h) c db = (Users.create_user n h c db).1
perform (change_user_password k h) c db = (Users.change_user_password k h c db).1
perform (delete_user k) c db = (Users.delete_user k c db).1
perform (create_comment p u t) c db = (Comments.create_comment p u t c db).1
perform (update_comment k u t) c db = (Comments.update_comment k u t c db).1
perform (delete_comment k u) c db = (Comments.delete_comment k u c db).1
perform (create_blog p) c db = (Blogs.create_blog p c db).1
perform (update_blog p) c db = (Updates.update_blog p c db).1
perform (update_blog_visibility b o v) c db = (Updates.update_blog_visibility b o v c db).1
perform (update_blog_registration p) c db = (Updates.update_blog_registration p c db).1
perform (delete_blog b o) c db = (Updates.delete_blog b o c db).1
perform (create_post p g q) c db = (Posts.create_post p g q c db).1
perform (bootstrap h q) c db = (Bootstrap.bootstrap h q c db).1

-- Whether it succeeds or fails, a method of the store keeps the database well formed: rows meet the
-- CHECKs, no two users share a name in any case, no two live blogs share a slug, no two posts share
-- a public id, nor two live posts of one blog a slug, keys are those that were given out, and every
-- owner, author and blog that a row names is there.
pub perform-IsWellFormed :
    (m : Method) (c : Call) (db : Db) → IsWellFormed db → IsWellFormed (perform m c db)
unfolding perform
perform-IsWellFormed (create_user n h) c db w = create_user-IsWellFormed n h c db w
perform-IsWellFormed (change_user_password k h) c db w =
    change_user_password-IsWellFormed k h c db w
perform-IsWellFormed (delete_user k) c db w = delete_user-IsWellFormed k c db w
perform-IsWellFormed (create_comment p u t) c db w = create_comment-IsWellFormed p u t c db w
perform-IsWellFormed (update_comment k u t) c db w = update_comment-IsWellFormed k u t c db w
perform-IsWellFormed (delete_comment k u) c db w = delete_comment-IsWellFormed k u c db w
perform-IsWellFormed (create_blog p) c db w = create_blog-IsWellFormed p c db w
perform-IsWellFormed (update_blog p) c db w = update_blog-IsWellFormed p c db w
perform-IsWellFormed (update_blog_visibility b o v) c db w =
    update_blog_visibility-IsWellFormed b o v c db w
perform-IsWellFormed (update_blog_registration p) c db w =
    update_blog_registration-IsWellFormed p c db w
perform-IsWellFormed (delete_blog b o) c db w = delete_blog-IsWellFormed b o c db w
perform-IsWellFormed (create_post p g q) c db w = create_post-IsWellFormed p g q c db w
perform-IsWellFormed (bootstrap h q) c db w = bootstrap-IsWellFormed h q c db w

-- The states that the store reaches from the database of the migrations.
pub data Reach : Db → Type 0 where
  start : Reach empty_db
  step : {db : Db} (m : Method) (c : Call) → Reach db → Reach (perform m c db)

-- Every database that the store can reach from the empty one is well formed.
pub Reach-IsWellFormed : {db : Db} → Reach db → IsWellFormed db
Reach-IsWellFormed start = empty_db-IsWellFormed
Reach-IsWellFormed (step m c r) = perform-IsWellFormed m c _ (Reach-IsWellFormed r)
