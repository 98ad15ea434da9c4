-- ===== src/Sqlite/Laws/BlogCreation.antt =====
-- Creating a blog: when it succeeds, and what the queries then return.
use blogengine.Prelude.{
  suc, ◌≡◌, refl, inl, inr, true, false, not, ◌||◌, List, Option, none, some, arith,
}
use blogengine.Prelude.Int.{ℤ, pos, negsuc, ltb_ℤ, leb_ℤ}
use blogengine.Prelude.Text.{text_eq_refl}
use blogengine.Errors.{ok}
use blogengine.Storage.{Blog, CreateBlogParams}
use blogengine.Sqlite.Table.{insert, done}
use blogengine.Sqlite.Database.{
  Db, Call, calm, BlogRow, is_positive, has_user, blog_check, blog_schema,
}
use blogengine.Sqlite.Query.{exec}
use blogengine.Sqlite.Invariant.Rows.{Reply-cases, exec-done, insert-done}
use blogengine.Sqlite.Validate.{
  validate_blog, validate_blog_slug, validate_blog_visibility, validate_blog_registration,
}
use blogengine.Sqlite.Blogs.{
  new_blog, insert_blog, create_blog, read_blog, get_blog_by_id, get_blog_by_slug,
}

-- The Go checks of a blog passed.
pub record IsAccepted (p : CreateBlogParams) : Type 0 where
  pub details : validate_blog p.slug p.title p.description ≡ none
  pub visibility : validate_blog_visibility p.visibility ≡ none
  pub registration : validate_blog_registration p.registration_mode p.registration_limit ≡ none

limit_positive : (k : ℤ) → (ltb_ℤ k 1 || not (leb_ℤ k 1000)) ≡ false → is_positive k ≡ true
limit_positive (pos n) h = ground arith
limit_positive (negsuc n) h = ground arith

-- What the Go checks let through meets the CHECK constraints of the table.
pub blog_check_of_IsAccepted :
    (p : CreateBlogParams) (c : Call) (db : Db)
    → IsAccepted p
    → is_positive p.owner_id ≡ true
    → blog_check (new_blog c db p) ≡ true
unfolding blog_check validate_blog_visibility validate_blog_registration
blog_check_of_IsAccepted p c db a h = limited p.registration_limit refl
  where
    limited : (o : Option ℤ) → p.registration_limit ≡ o → blog_check (new_blog c db p) ≡ true
    limited none e = ground (arith, a.visibility, a.registration, e)
    limited (some k) e = ground (arith, a.visibility, a.registration, e, limit_positive k)

pub create_blog_inv :
    (p : CreateBlogParams) (c : Call) (db : Db) {b : Blog} {db' : Db}
    → create_blog p c db ≡ (ok b, db')
    → IsAccepted p × (insert_blog p c db ≡ (ok b, db'))
unfolding create_blog
create_blog_inv p c db h = (
  record { details = ground arith; visibility = ground arith; registration = ground arith },
  ground arith,
)

pub create_blog_of_IsAccepted :
    (p : CreateBlogParams) (c : Call) (db : Db)
    → IsAccepted p
    → create_blog p c db ≡ insert_blog p c db
unfolding create_blog
create_blog_of_IsAccepted p c db a = ground (arith, a.details, a.visibility, a.registration)

pub insert_blog_inv :
    (p : CreateBlogParams) (c : Call) (db : Db) {b : Blog} {db' : Db}
    → insert_blog p c db ≡ (ok b, db')
    → (rows : List BlogRow) × (exec c
          (insert blog_schema (new_blog c db p) (has_user db p.owner_id) db.blogs)
        ≡ done rows)
      × (b ≡ read_blog (new_blog c db p))
      × (db' ≡ record db { blogs = rows; blog_seq = suc db.blog_seq })
unfolding insert_blog
insert_blog_inv p c db h =
    elim (Reply-cases
      (exec c (insert blog_schema (new_blog c db p) (has_user db p.owner_id) db.blogs))) [
        | inl (e, q) ↦ absurd (ground (arith, q))
        | inr (rows, q) ↦ (rows, q, ground (arith, q), ground (arith, q))
      ]

valid_of_details :
    (p : CreateBlogParams)
    → validate_blog p.slug p.title p.description ≡ none
    → validate_blog_slug p.slug ≡ none
unfolding validate_blog
valid_of_details p h = ground arith

-- A blog that was created is what the queries by its id and by its slug return next.
pub get-create_blog :
    (p : CreateBlogParams) (c later : Call) (db : Db) {b : Blog} {db' : Db}
    → later.fault ≡ none
    → create_blog p c db ≡ (ok b, db')
    → (get_blog_by_id b.id later db' ≡ (ok b, db'))
      × (get_blog_by_slug p.slug later db' ≡ (ok b, db'))
unfolding get_blog_by_id get_blog_by_slug read_blog
get-create_blog p c later db {b} {db'} calm h =
    let (a, ins) = create_blog_inv p c db h in
    let (rows, q, eb, ed) = insert_blog_inv p c db ins in
    let (grown, _) =
      insert-done blog_schema (new_blog c db p) (has_user db p.owner_id) db.blogs
        (exec-done c (insert blog_schema (new_blog c db p) (has_user db p.owner_id) db.blogs) q) in
    rw (eb, ed, grown)
      (
        ground (arith, calm),
        ground (arith, calm, valid_of_details p a.details, text_eq_refl p.slug),
      )
