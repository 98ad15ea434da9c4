-- ===== src/Tests/Sqlite.antt =====
-- The store on the small database.
use blogengine.Prelude.{
  ℕ, ◌≡◌, ◌≢◌, ◌↔◌, ◌⊎◌, refl, true, false, List, [], ◌∷◌, ◌++◌, none, some, ◌≤◌, All, find, arith,
}
use blogengine.Prelude.Int.{pos}
use blogengine.Prelude.Text.{codes}
use blogengine.Errors.{
  ok, err, err_not_found, err_get_blog_by_id, err_get_post_by_slug_or_public_id, sql_no_rows,
}
use blogengine.Storage.{Blog, Post}
use blogengine.Sqlite.Table.{insert, update, replace}
use blogengine.Sqlite.Database.{
  Db, blog_schema, calm, first_hour, has_user, blog_check, blog_clash, BlogRow, limit_rows,
  offset_rows, order_last,
}
use blogengine.Sqlite.Validate.{validate_blog_slug, valid_slug}
use blogengine.Sqlite.Blogs.{create_blog, new_blog, get_blog_by_id, get_blog_by_slug}
use blogengine.Sqlite.Blogs.Updates.{
  owned_blog, touch_blog, update_blog, update_blog_visibility, update_blog_registration,
  delete_blog,
}
use blogengine.Sqlite.Posts.Queries.{get_latest_public_posts, get_post_by_slug_or_public_id}
use blogengine.Sqlite.Invariant.WellFormed.{IsWellFormed}
use blogengine.Sqlite.Invariant.Methods
use blogengine.Sqlite.Invariant.Methods.{
  perform, perform-IsWellFormed, start, step, Reach-IsWellFormed,
}
use blogengine.Sqlite.Laws.Validation.{MatchesSlug, valid_slug_iff}
use blogengine.Sqlite.Laws.BlogCreation.{IsAccepted, get-create_blog}
use blogengine.Sqlite.Laws.BlogSuccess.{IsSlugFree, create_blog_succeeds_iff}
use blogengine.Sqlite.Laws.Ownership.{IsRefused, stranger_changes_nothing}
use blogengine.Prelude.TextSort.{IsLastFirst}
use blogengine.Sqlite.Laws.Pages.{pages-append}
use blogengine.Sqlite.Laws.Deletion.{or_refusal, delete_blog-IsGone}
use blogengine.Sqlite.Laws.Listing.{
  IsShown, IsPublic, post_time, latest_posts-IsShown, get_post-IsShown,
}
use blogengine.Tests.World.{
  ada, notes_blog, first_post, world, world-IsWellFormed, travel_params, foreign_edit,
  foreign_registration,
}

perform-IsWellFormed_example :
    IsWellFormed (perform (Methods.delete_comment (pos 1) (pos 1)) (calm 50) world)
perform-IsWellFormed_example =
    perform-IsWellFormed (Methods.delete_comment (pos 1) (pos 1)) (calm 50) world world-IsWellFormed

valid_slug_iff_example : (valid_slug (codes "my-blog") ≡ true) ↔ MatchesSlug (codes "my-blog")
valid_slug_iff_example = valid_slug_iff (codes "my-blog")

abbrev travel : Blog
travel = record {
  id = pos 2;
  owner_id = pos 1;
  owner_name = [];
  slug = travel_params.slug;
  title = travel_params.title;
  description = none;
  visibility = travel_params.visibility;
  registration_mode = travel_params.registration_mode;
  registration_limit = none;
  created_at = 50;
  updated_at = none;
  deleted_at = none;
}

abbrev with_travel : Db
with_travel = record world {
  blogs = new_blog (calm 50) world travel_params ∷ notes_blog ∷ [];
  blog_seq = 2;
}

create_travel : create_blog travel_params (calm 50) world ≡ (ok travel, with_travel)
unfolding create_blog blog_check insert blog_clash
create_travel = refl

get-create_blog_example :
    (get_blog_by_id (pos 2) (calm 60) with_travel ≡ (ok travel, with_travel))
    × (get_blog_by_slug (codes "travel") (calm 60) with_travel ≡ (ok travel, with_travel))
get-create_blog_example =
    get-create_blog travel_params (calm 50) (calm 60) world {b = travel} {db' = with_travel} refl
      create_travel

create_blog_succeeds_iff_example :
    ((b : Blog) × (db' : Db) × (create_blog travel_params (calm 50) world ≡ (ok b, db'))) ↔ (
      IsAccepted travel_params
      × (has_user world (pos 1) ≡ true)
      × IsSlugFree (codes "travel") (notes_blog ∷ []))
create_blog_succeeds_iff_example =
    create_blog_succeeds_iff travel_params (calm 50) world world-IsWellFormed refl

pos_one_is_not_two : pos 1 ≢ pos 2
pos_one_is_not_two e = ground arith

stranger_changes_nothing_example :
    IsRefused world (update_blog foreign_edit (calm 50) world)
    × IsRefused world (update_blog_visibility (pos 1) (pos 2) (codes "private") (calm 50) world)
    × IsRefused world (update_blog_registration foreign_registration (calm 50) world)
    × IsRefused world (delete_blog (pos 1) (pos 2) (calm 50) world)
stranger_changes_nothing_example =
    stranger_changes_nothing foreign_edit foreign_registration (codes "private") (calm 50) world
      refl refl (λ same_id same_owner. pos_one_is_not_two same_owner, tt)

abbrev rows : List ℕ
rows = 5 ∷ 6 ∷ 7 ∷ []

pages-append_example :
    limit_rows (pos 2) (offset_rows (pos 0) rows) ++ limit_rows (pos 2) (offset_rows (pos 2) rows)
    ≡ limit_rows (pos 4) (offset_rows (pos 0) rows)
pages-append_example = pages-append 0 2 2 rows

abbrev without_notes : Db
without_notes = record world {
  blogs = record notes_blog { updated_at = some 50; deleted_at = some 50 } ∷ [];
}

delete_notes : delete_blog (pos 1) (pos 1) (calm 50) world ≡ (ok tt, without_notes)
unfolding delete_blog update blog_check
delete_notes = refl

delete_blog-IsGone_example :
    (old : BlogRow) × (find (owned_blog (pos 1) (pos 1)) world.blogs ≡ some old)
    × (old.id ≡ pos 1)
    × (old.deleted_at ≡ none)
    × (without_notes.blogs
        ≡ replace blog_schema
            (touch_blog (calm 50) (record old { deleted_at = some 50 }))
            world.blogs)
    × (get_blog_by_id (pos 1) (calm 60) without_notes
        ≡ (err (err_get_blog_by_id ∷ err_not_found ∷ []), without_notes))
    × IsSlugFree old.slug without_notes.blogs
    × (get_blog_by_slug old.slug (calm 60) without_notes
        ≡ (err (or_refusal (validate_blog_slug old.slug)), without_notes))
delete_blog-IsGone_example =
    delete_blog-IsGone (pos 1) (pos 1) (calm 50) (calm 60) world {db' = without_notes}
      world-IsWellFormed refl delete_notes

abbrev listed_post : Post
listed_post = record {
  id = pos 1;
  blog_id = pos 1;
  blog_slug = notes_blog.slug;
  author_id = pos 1;
  author_name = ada.username;
  public_id = first_post.public_id;
  slug = first_post.slug;
  title = first_post.title;
  description = none;
  s3_key = [];
  is_encrypted = false;
  encryption_iv = none;
  requires_auth = false;
  is_listed = true;
  allow_comments = false;
  published_at = some (codes "1970-01-01 00:00:30 +0000 UTC");
  created_at = 0;
  updated_at = none;
  deleted_at = none;
}

latest_posts :
    get_latest_public_posts (pos 0) (pos 20) (calm 60) world ≡ (ok (listed_post ∷ []), world)
unfolding get_latest_public_posts limit_rows offset_rows order_last
latest_posts = refl

latest_posts-IsShown_example :
    All (λ p. IsShown world (first_hour 60) p × IsPublic world p) (listed_post ∷ [])
    × IsLastFirst post_time (listed_post ∷ [])
    × ((n : ℕ) × (pos 20 ≡ pos n) × (1 ≤ n))
    × (world ≡ world)
latest_posts-IsShown_example =
    latest_posts-IsShown (pos 0) (pos 20) (calm 60) world {ps = listed_post ∷ []} {db' = world}
      latest_posts

abbrev read_first_post : Post
read_first_post = record listed_post { s3_key = first_post.s3_key }

first_post_by_slug :
    get_post_by_slug_or_public_id (codes "notes") (codes "first-post") (calm 60) world
    ≡ (ok read_first_post, world)
unfolding get_post_by_slug_or_public_id
first_post_by_slug = refl

-- before its time the post is not found
first_post_too_early :
    get_post_by_slug_or_public_id (codes "notes") (codes "first-post") (calm 29) world
    ≡ (err (err_get_post_by_slug_or_public_id ∷ sql_no_rows ∷ []), world)
unfolding get_post_by_slug_or_public_id
first_post_too_early = refl

get_post-IsShown_example :
    IsShown world (first_hour 60) read_first_post
    × (codes "notes" ≡ codes "notes")
    × ((some (codes "first-post") ≡ some (codes "first-post"))
        ⊎ (first_post.public_id ≡ codes "first-post"))
    × (world ≡ world)
get_post-IsShown_example =
    get_post-IsShown (codes "notes") (codes "first-post") (calm 60) world {p = read_first_post}
      {db' = world} first_post_by_slug
