-- ===== src/Sqlite/Invariant/Posts.antt =====
-- The methods of posts.go and bootstrap.go keep the database well formed.
use blogengine.Prelude.{◌≡◌, refl, ◌&&◌, inl, inr, Bool-cases}
use blogengine.Prelude.Text.{Text}
use blogengine.Errors.{Result, ok, err, errors_is_not_found}
use blogengine.Storage.{User, CreatePostParams}
use blogengine.Sqlite.Table.{insert}
use blogengine.Sqlite.Database.{Db, Call, post_schema, has_user, has_blog}
use blogengine.Sqlite.Query.{exec}
use blogengine.Sqlite.Users.{create_user, get_user_by_username}
use blogengine.Sqlite.Posts.{new_post, prepare_post, insert_post, create_post}
use blogengine.Sqlite.Bootstrap.{
  default_admin_username, create_admin_user, get_or_create_admin_user, bootstrap,
}
use blogengine.Sqlite.Invariant.Statements.{insert-IsSound}
use blogengine.Sqlite.Invariant.Rows.{Reply-cases, exec-done, insert-done}
use blogengine.Sqlite.Invariant.WellFormed.{IsWellFormed}
use blogengine.Sqlite.Invariant.Users.{create_user-IsWellFormed}

insert_post-IsWellFormed :
    (p : CreatePostParams) (public_id s3_key : Text) (c : Call) (db : Db)
    → IsWellFormed db
    → IsWellFormed (insert_post p public_id s3_key c db).1
unfolding insert_post
insert_post-IsWellFormed p public_id s3_key c db w =
    let r = new_post c db p public_id s3_key in
    let refs = has_blog db p.blog_id && has_user db p.author_id in
    let stmt = insert post_schema r refs db.posts in
    elim (Reply-cases (exec c stmt)) [
      | inl (e, h) ↦ rw (h, insert_post) w
      | inr (rows, h) ↦
          let q = exec-done c stmt h in
          let (grown, known) = insert-done post_schema r refs db.posts q in
          rw (h, insert_post)
            (record {
              users = w.users;
              comments = w.comments;
              blogs = w.blogs;
              posts = insert-IsSound post_schema db.post_seq r refs db.posts refl w.posts q;
              comment_authors = w.comment_authors;
              blog_owners = w.blog_owners;
              post_parents = rw grown (known, w.post_parents);
            })
    ]

pub create_post-IsWellFormed :
    (p : CreatePostParams) (generated : Result Text) (q c : Call) (db : Db)
    → IsWellFormed db
    → IsWellFormed (create_post p generated q c db).1
unfolding create_post
create_post-IsWellFormed p generated q c db w = prepared (prepare_post p generated q db) refl
  where
    prepared :
        (r : Result (Text × Text))
        → prepare_post p generated q db ≡ r
        → IsWellFormed (create_post p generated q c db).1
    prepared (err e) h = rw (h, create_post) w
    prepared (ok (public_id, s3_key)) h =
        rw (h, create_post) (insert_post-IsWellFormed p public_id s3_key c db w)

create_admin_user-IsWellFormed :
    (hash : Result Text) (c : Call) (db : Db)
    → IsWellFormed db
    → IsWellFormed (create_admin_user hash c db).1
unfolding create_admin_user
create_admin_user-IsWellFormed (err e) c db w = w
create_admin_user-IsWellFormed (ok hash) c db w =
    wrapped (create_user default_admin_username hash c db)
      (create_user-IsWellFormed default_admin_username hash c db w) refl
  where
    wrapped :
        (r : Result User × Db)
        → IsWellFormed r.1
        → create_user default_admin_username hash c db ≡ r
        → IsWellFormed (create_admin_user (ok hash) c db).1
    wrapped (ok u, db') w' h = rw (h, create_admin_user) w'
    wrapped (err e, db') w' h = rw (h, create_admin_user) w'

get_or_create_admin_user-IsWellFormed :
    (hash : Result Text) (q c : Call) (db : Db)
    → IsWellFormed db
    → IsWellFormed (get_or_create_admin_user hash q c db).1
unfolding get_or_create_admin_user
get_or_create_admin_user-IsWellFormed hash q c db w =
    looked_up (get_user_by_username default_admin_username q db).0 refl
  where
    looked_up :
        (r : Result User)
        → (get_user_by_username default_admin_username q db).0 ≡ r
        → IsWellFormed (get_or_create_admin_user hash q c db).1
    looked_up (ok u) h = rw (h, get_or_create_admin_user) w
    looked_up (err e) h = elim (Bool-cases (errors_is_not_found e)) [
      | inl n ↦ rw (h, n, get_or_create_admin_user) (create_admin_user-IsWellFormed hash c db w)
      | inr n ↦ rw (h, n, get_or_create_admin_user) w
    ]

pub bootstrap-IsWellFormed :
    (hash : Result Text) (q c : Call) (db : Db)
    → IsWellFormed db
    → IsWellFormed (bootstrap hash q c db).1
unfolding bootstrap
bootstrap-IsWellFormed hash q c db w =
    finished (get_or_create_admin_user hash q c db)
      (get_or_create_admin_user-IsWellFormed hash q c db w) refl
  where
    finished :
        (r : Result User × Db)
        → IsWellFormed r.1
        → get_or_create_admin_user hash q c db ≡ r
        → IsWellFormed (bootstrap hash q c db).1
    finished (ok u, db') w' h = rw (h, bootstrap) w'
    finished (err e, db') w' h = rw (h, bootstrap) w'
