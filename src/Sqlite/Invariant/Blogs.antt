-- ===== src/Sqlite/Invariant/Blogs.antt =====
-- The methods of blogs.go keep the database well formed.
use blogengine.Prelude.{
  ℕ, suc, ◌≡◌, refl, true, inl, inr, List, Option, some, any, arith, Option-cases, All, All-mono,
}
use blogengine.Prelude.Int.{ℤ, ◌==ℤ◌}
use blogengine.Storage.{
  Visibility, CreateBlogParams, UpdateBlogParams, UpdateBlogRegistrationParams,
}
use blogengine.Sqlite.Table.{insert, update, done}
use blogengine.Sqlite.Database.{Db, Call, BlogRow, blog_schema, has_user}
use blogengine.Sqlite.Query.{exec}
use blogengine.Sqlite.Validate.{validate_blog, validate_blog_visibility, validate_blog_registration}
use blogengine.Sqlite.Blogs.{new_blog, insert_blog, create_blog}
use blogengine.Sqlite.Blogs.Updates.{
  touch_blog, owned_blog, update_row, update_blog, update_blog_visibility, update_blog_registration,
  delete_blog,
}
use blogengine.Sqlite.Invariant.Tables.{IsSound}
use blogengine.Sqlite.Invariant.Statements.{insert-IsSound, update-IsSound}
use blogengine.Sqlite.Invariant.Rows.{
  Reply-cases, exec-done, insert-done, has_key-update, All-update,
}
use blogengine.Sqlite.Invariant.WellFormed.{IsWellFormed, blog_schema-IsSymmetric, owner_known}

-- A change of the blogs alone, which keeps the keys.
with_blogs :
    (db : Db) (blogs' : List BlogRow) (seq' : ℕ)
    → IsWellFormed db
    → IsSound blog_schema seq' blogs'
    → All (λ b. owner_known db.users b ≡ true) blogs'
    → ((k : ℤ) → any (λ b. b.id ==ℤ k) db.blogs ≡ true → any (λ b. b.id ==ℤ k) blogs' ≡ true)
    → IsWellFormed (record db { blogs = blogs'; blog_seq = seq' })
with_blogs db blogs' seq' w sound owners keep = record {
  users = w.users;
  comments = w.comments;
  blogs = sound;
  posts = w.posts;
  comment_authors = w.comment_authors;
  blog_owners = owners;
  post_parents = All-mono (λ p h. ground (arith, keep p.blog_id)) db.posts w.post_parents;
}

pub insert_blog-IsWellFormed :
    (p : CreateBlogParams) (c : Call) (db : Db)
    → IsWellFormed db
    → IsWellFormed (insert_blog p c db).1
unfolding insert_blog
insert_blog-IsWellFormed p c db w =
    let r = new_blog c db p in
    let stmt = insert blog_schema r (has_user db p.owner_id) db.blogs in
    elim (Reply-cases (exec c stmt)) [
      | inl (e, h) ↦ rw (h, insert_blog) w
      | inr (rows, h) ↦
          let q = exec-done c stmt h in
          let (grown, known) = insert-done blog_schema r (has_user db p.owner_id) db.blogs q in
          rw (h, insert_blog)
            (with_blogs db rows (suc db.blog_seq) w
              (insert-IsSound blog_schema db.blog_seq r (has_user db p.owner_id) db.blogs refl
                w.blogs q)
              (rw grown (known, w.blog_owners)) (λ k present. rw grown (ground arith)))
    ]

pub create_blog-IsWellFormed :
    (p : CreateBlogParams) (c : Call) (db : Db)
    → IsWellFormed db
    → IsWellFormed (create_blog p c db).1
unfolding create_blog
create_blog-IsWellFormed p c db w = ground (
  arith,
  insert_blog-IsWellFormed p c db w,
  Option-cases (validate_blog p.slug p.title p.description),
  Option-cases (validate_blog_visibility p.visibility),
  Option-cases (validate_blog_registration p.registration_mode p.registration_limit),
)

-- Any UPDATE of one blog that keeps its key and its owner.
module _ (blog_id owner_id : ℤ) (assign : BlogRow → BlogRow) (c : Call)
    (keeps_id : (x : BlogRow) → (assign x).id ≡ x.id)
    (keeps_owner : (x : BlogRow) → (assign x).owner_id ≡ x.owner_id) where
  update_row-IsWellFormed :
      (db : Db) (hit : Option BlogRow) (rows : List BlogRow)
      → IsWellFormed db
      → update_row blog_id owner_id assign c db ≡ done (hit, rows)
      → IsWellFormed (record db { blogs = rows })
  unfolding update_row
  update_row-IsWellFormed db hit rows w p =
      let stmt = update blog_schema (owned_blog blog_id owner_id) assign (touch_blog c) db.blogs in
      let q = exec-done c stmt p in
      with_blogs db rows db.blog_seq w
        (update-IsSound blog_schema blog_schema-IsSymmetric (owned_blog blog_id owner_id) assign
          (touch_blog c) keeps_id db.blog_seq db.blogs hit rows w.blogs q)
        (All-update blog_schema (owned_blog blog_id owner_id) assign (touch_blog c)
          (λ b. owner_known db.users b ≡ true) (λ x h. rw (keeps_owner x) h) db.blogs hit rows
          w.blog_owners q)
        (λ k h.
          rw
            (has_key-update blog_schema (owned_blog blog_id owner_id) assign (touch_blog c) k
              db.blogs hit rows q)
            h)

pub update_blog-IsWellFormed :
    (p : UpdateBlogParams) (c : Call) (db : Db)
    → IsWellFormed db
    → IsWellFormed (update_blog p c db).1
unfolding update_blog
update_blog-IsWellFormed p c db w =
    let assign =
      λ (b : BlogRow). record b { slug = p.slug; title = p.title; description = p.description } in
    elim (Reply-cases (update_row p.blog_id p.owner_id assign c db)) [
      | inl (e, h) ↦ ground (arith, w, h, Option-cases (validate_blog p.slug p.title p.description))
      | inr ((hit, rows), h) ↦
          let w' =
            update_row-IsWellFormed p.blog_id p.owner_id assign c (λ x. refl) (λ x. refl) db hit
              rows w h in
          ground (arith, w, w', h, Option-cases (validate_blog p.slug p.title p.description))
    ]

pub update_blog_visibility-IsWellFormed :
    (blog_id owner_id : ℤ) (visibility : Visibility) (c : Call) (db : Db)
    → IsWellFormed db
    → IsWellFormed (update_blog_visibility blog_id owner_id visibility c db).1
unfolding update_blog_visibility
update_blog_visibility-IsWellFormed blog_id owner_id visibility c db w =
    let assign = λ (b : BlogRow). record b { visibility = visibility } in
    elim (Reply-cases (update_row blog_id owner_id assign c db)) [
      | inl (e, h) ↦ ground (arith, w, h, Option-cases (validate_blog_visibility visibility))
      | inr ((hit, rows), h) ↦
          let w' =
            update_row-IsWellFormed blog_id owner_id assign c (λ x. refl) (λ x. refl) db hit rows w
              h in
          ground (arith, w, w', h, Option-cases (validate_blog_visibility visibility))
    ]

pub update_blog_registration-IsWellFormed :
    (p : UpdateBlogRegistrationParams) (c : Call) (db : Db)
    → IsWellFormed db
    → IsWellFormed (update_blog_registration p c db).1
unfolding update_blog_registration
update_blog_registration-IsWellFormed p c db w =
    let assign = λ (b : BlogRow). record b {
      registration_mode = p.registration_mode;
      registration_limit = p.registration_limit;
    } in
    let v = validate_blog_registration p.registration_mode p.registration_limit in
    elim (Reply-cases (update_row p.blog_id p.owner_id assign c db)) [
      | inl (e, h) ↦ ground (arith, w, h, Option-cases v)
      | inr ((hit, rows), h) ↦
          let w' =
            update_row-IsWellFormed p.blog_id p.owner_id assign c (λ x. refl) (λ x. refl) db hit
              rows w h in
          ground (arith, w, w', h, Option-cases v)
    ]

pub delete_blog-IsWellFormed :
    (blog_id owner_id : ℤ) (c : Call) (db : Db)
    → IsWellFormed db
    → IsWellFormed (delete_blog blog_id owner_id c db).1
unfolding delete_blog
delete_blog-IsWellFormed blog_id owner_id c db w =
    let assign = λ (b : BlogRow). record b { deleted_at = some c.now } in
    elim (Reply-cases (update_row blog_id owner_id assign c db)) [
      | inl (e, h) ↦ ground (arith, w, h)
      | inr ((hit, rows), h) ↦
          let w' =
            update_row-IsWellFormed blog_id owner_id assign c (λ x. refl) (λ x. refl) db hit rows w
              h in
          ground (arith, w, w', h)
    ]
