-- ===== src/Sqlite/Blogs/Updates.antt =====
-- storage/sqlite/blogs.go: the updates of a blog, which its owner alone can make.
use blogengine.Prelude.{Bool, ◌&&◌, ◌||◌, List, [], ◌∷◌, Option, none, some, if◌then◌else◌}
use blogengine.Prelude.Int.{ℤ, ◌==ℤ◌, ltb_ℤ}
use blogengine.Errors.{
  ok, err, err_update_blog, err_negative_ids, err_blog_visibility, err_update_blog_visibility,
  err_update_blog_registration, err_delete_blog,
}
use blogengine.Storage.{Blog, Visibility, UpdateBlogParams, UpdateBlogRegistrationParams}
use blogengine.Sqlite.Table.{Reply, done, failed, update}
use blogengine.Sqlite.Database.{Db, Call, BlogRow, is_live, blog_schema}
use blogengine.Sqlite.Query.{Op, exec, get, affected}
use blogengine.Sqlite.Validate.{validate_blog, validate_blog_visibility, validate_blog_registration}
use blogengine.Sqlite.Blogs.{read_blog, wrapped}

-- trg_blogs_updated_at
abbrev pub touch_blog : Call → BlogRow → BlogRow
touch_blog c b = record b { updated_at = some c.now }

-- WHERE id = ? AND owner_id = ? AND deleted_at IS NULL
abbrev pub owned_blog : ℤ → ℤ → BlogRow → Bool
owned_blog blog_id owner_id b = b.id ==ℤ blog_id && b.owner_id ==ℤ owner_id && is_live b.deleted_at

-- an UPDATE of one blog; RETURNING gives the row before the trigger
unfoldable pub update_row :
    (blog_id owner_id : ℤ) → (BlogRow → BlogRow) → Call → Db → Reply (Option BlogRow × List BlogRow)
update_row blog_id owner_id assign c db =
    exec c (update blog_schema (owned_blog blog_id owner_id) assign (touch_blog c) db.blogs)

abbrev bad_ids : ℤ → ℤ → Bool
bad_ids a b = ltb_ℤ a 1 || ltb_ℤ b 1

unfoldable pub update_blog : UpdateBlogParams → Op Blog
unfolding validate_blog update_row read_blog
update_blog p c db =
    if bad_ids p.blog_id p.owner_id
    then (err (err_negative_ids ∷ []), db)
    else elim (validate_blog p.slug p.title p.description) [
      | some e ↦ (err e, db)
      | none ↦
          elim (update_row p.blog_id p.owner_id
            (λ b. record b { slug = p.slug; title = p.title; description = p.description }) c db) [
              | failed e ↦ (err (wrapped err_update_blog e), db)
              | done (hit, rows) ↦ elim (get c hit) [
                | failed e ↦ (err (wrapped err_update_blog e), record db { blogs = rows })
                | done b ↦ (ok (read_blog b), record db { blogs = rows })
              ]
            ]
    ]

unfoldable pub update_blog_visibility : (blog_id owner_id : ℤ) → Visibility → Op (Unit {0})
unfolding validate_blog_visibility update_row
update_blog_visibility blog_id owner_id visibility c db =
    if bad_ids blog_id owner_id
    then (err (err_negative_ids ∷ []), db)
    else elim (validate_blog_visibility visibility) [
      | some e ↦ (err e, db)
      | none ↦ elim (update_row blog_id owner_id (λ b. record b { visibility = visibility }) c db) [
        | failed e ↦ (err (err_update_blog_visibility ∷ []), db)
        | done (hit, rows) ↦
            (affected c hit (wrapped err_blog_visibility), record db { blogs = rows })
      ]
    ]

unfoldable pub update_blog_registration : UpdateBlogRegistrationParams → Op (Unit {0})
unfolding validate_blog_registration update_row
update_blog_registration p c db =
    if bad_ids p.blog_id p.owner_id
    then (err (err_negative_ids ∷ []), db)
    else elim (validate_blog_registration p.registration_mode p.registration_limit) [
      | some e ↦ (err e, db)
      | none ↦
          elim (update_row p.blog_id p.owner_id
            (λ b. record b {
              registration_mode = p.registration_mode;
              registration_limit = p.registration_limit;
            })
            c db) [
              | failed e ↦ (err (err_update_blog_registration ∷ []), db)
              | done (hit, rows) ↦ (
                affected c hit (wrapped err_update_blog_registration),
                record db { blogs = rows },
              )
            ]
    ]

unfoldable pub delete_blog : (blog_id owner_id : ℤ) → Op (Unit {0})
unfolding update_row
delete_blog blog_id owner_id c db =
    if bad_ids blog_id owner_id
    then (err (err_negative_ids ∷ []), db)
    else elim (update_row blog_id owner_id (λ b. record b { deleted_at = some c.now }) c db) [
      | failed e ↦ (err (err_delete_blog ∷ []), db)
      | done (hit, rows) ↦ (affected c hit (wrapped err_delete_blog), record db { blogs = rows })
    ]
