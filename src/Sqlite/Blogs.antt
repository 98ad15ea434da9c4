-- ===== src/Sqlite/Blogs.antt =====
-- storage/sqlite/blogs.go. A statement that returns a `Blog` leaves `owner_name` empty but for the
-- list of public blogs.
pub mod Updates
use blogengine.Prelude.{
  suc, Bool, ◌&&◌, ◌||◌, List, [], ◌∷◌, map, Option, none, some, find, select, if◌then◌else◌,
}
use blogengine.Prelude.Int.{ℤ, pos, ◌==ℤ◌, ltb_ℤ, leb_ℤ}
use blogengine.Prelude.Text.{Text, text_eq}
use blogengine.Errors.{
  Sentinel, Error, ok, err, map_sql_error, err_create_blog, err_limit_offset, err_all_public_blogs,
  err_invalid_blog_id, err_invalid_owner_id, err_blogs_by_user_id, err_get_blog_by_id,
  err_get_blog_by_slug, err_update_blog, err_negative_ids, err_blog_visibility,
  err_update_blog_visibility, err_update_blog_registration, err_delete_blog,
}
use blogengine.Storage.{
  User, Blog, Visibility, visibility_public, CreateBlogParams, UpdateBlogParams,
  UpdateBlogRegistrationParams,
}
use blogengine.Sqlite.Table.{Reply, done, failed, insert, update}
use blogengine.Sqlite.Database.{
  Db, Call, BlogRow, is_live, has_user, blog_schema, limit_rows, offset_rows, order_desc,
}
use blogengine.Sqlite.Query.{Op, exec, get, answer, affected}
use blogengine.Sqlite.Validate.{
  validate_blog, validate_blog_slug, validate_blog_visibility, validate_blog_registration,
}

-- the columns of most queries, `deleted_at` being NULL in what they select
unfoldable pub read_blog : BlogRow → Blog
read_blog b = record {
  id = b.id;
  owner_id = b.owner_id;
  owner_name = [];
  slug = b.slug;
  title = b.title;
  description = b.description;
  visibility = b.visibility;
  registration_mode = b.registration_mode;
  registration_limit = b.registration_limit;
  created_at = b.created_at;
  updated_at = b.updated_at;
  deleted_at = none;
}

abbrev pub wrapped : Sentinel → Sentinel → Error
wrapped what e = what ∷ map_sql_error e ∷ []

abbrev pub new_blog : Call → Db → CreateBlogParams → BlogRow
new_blog c db p = record {
  id = pos (suc db.blog_seq);
  owner_id = p.owner_id;
  slug = p.slug;
  title = p.title;
  description = p.description;
  visibility = p.visibility;
  registration_mode = p.registration_mode;
  registration_limit = p.registration_limit;
  created_at = c.now;
  updated_at = none;
  deleted_at = none;
}

-- the INSERT of CreateBlog
unfoldable pub insert_blog : CreateBlogParams → Op Blog
unfolding read_blog
insert_blog p c db =
    let r = new_blog c db p in
    elim (exec c (insert blog_schema r (has_user db p.owner_id) db.blogs)) [
      | failed e ↦ (err (wrapped err_create_blog e), db)
      | done rows ↦ (ok (read_blog r), record db { blogs = rows; blog_seq = suc db.blog_seq })
    ]

unfoldable pub create_blog : CreateBlogParams → Op Blog
unfolding validate_blog validate_blog_visibility validate_blog_registration insert_blog
create_blog p c db = elim (validate_blog p.slug p.title p.description) [
  | some e ↦ (err e, db)
  | none ↦ elim (validate_blog_visibility p.visibility) [
    | some e ↦ (err e, db)
    | none ↦ elim (validate_blog_registration p.registration_mode p.registration_limit) [
      | some e ↦ (err e, db)
      | none ↦ insert_blog p c db
    ]
  ]
]

abbrev bad_page : ℤ → ℤ → Bool
bad_page offset limit = ltb_ℤ offset 0 || leb_ℤ limit 0

-- JOIN users AS u ON u.id = b.owner_id: the name that the row has, if there is a user
unfoldable pub owner_of : Db → BlogRow → Option User
owner_of db b = find (λ u. u.id ==ℤ b.owner_id) db.users

abbrev with_owner : Blog → Option User → List Blog → List Blog
with_owner b none rest = rest
with_owner b (some u) rest = record b { owner_name = u.username } ∷ rest

unfoldable pub join_owners : Db → List BlogRow → List Blog
unfolding read_blog owner_of
join_owners db [] = []
join_owners db (b ∷ bs) = with_owner (read_blog b) (owner_of db b) (join_owners db bs)

abbrev pub is_public : BlogRow → Bool
is_public b = text_eq b.visibility visibility_public && is_live b.deleted_at

unfoldable pub get_public_blogs : (offset limit : ℤ) → Op (List Blog)
unfolding join_owners
get_public_blogs offset limit c db =
    if bad_page offset limit then (err (err_limit_offset ∷ []), db) else (
      answer
          (exec c (
            done (
              limit_rows limit (
                offset_rows offset
                  (join_owners db (order_desc (λ b. b.created_at) (select is_public db.blogs)))))))
          (wrapped err_all_public_blogs),
      db,
    )

unfoldable pub get_blog_by_id : ℤ → Op Blog
unfolding read_blog
get_blog_by_id blog_id c db = if ltb_ℤ blog_id 1 then (err (err_invalid_blog_id ∷ []), db) else (
  elim (get c (find (λ b. b.id ==ℤ blog_id && is_live b.deleted_at) db.blogs)) [
    | failed e ↦ err (wrapped err_get_blog_by_id e)
    | done b ↦ ok (read_blog b)
  ],
  db,
)

-- GetBlogsByUserID does not map the error of the driver
unfoldable pub get_blogs_by_user_id : (owner_id offset limit : ℤ) → Op (List Blog)
unfolding read_blog
get_blogs_by_user_id owner_id offset limit c db =
    if bad_page offset limit
    then (err (err_blogs_by_user_id ∷ err_limit_offset ∷ []), db)
    else if ltb_ℤ owner_id 1
    then (err (err_blogs_by_user_id ∷ err_invalid_owner_id ∷ []), db)
    else (
      answer
          (exec c (
            done (
              map read_blog (
                limit_rows limit (
                  offset_rows offset (
                    order_desc (λ b. b.created_at)
                      (select (λ b. b.owner_id ==ℤ owner_id && is_live b.deleted_at) db.blogs)))))))
          (λ e. err_blogs_by_user_id ∷ e ∷ []),
      db,
    )

unfoldable pub get_blog_by_slug : Text → Op Blog
unfolding validate_blog_slug read_blog
get_blog_by_slug slug c db = elim (validate_blog_slug slug) [
  | some e ↦ (err e, db)
  | none ↦ (
    elim (get c (find (λ b. text_eq b.slug slug && is_live b.deleted_at) db.blogs)) [
      | failed e ↦ err (wrapped err_get_blog_by_slug e)
      | done b ↦ ok (read_blog b)
    ],
    db,
  )
]
