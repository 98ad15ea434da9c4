-- ===== src/Handlers/Laws/Missing.antt =====
-- What the page of a blog and the page of a post answer when there is none.
use blogengine.Prelude.{
  ◌≡◌, refl, inl, inr, false, ◌&&◌, [], ◌∷◌, Option, none, some, find, arith, Option-cases,
}
use blogengine.Prelude.Text.{Text, text_eq, is_empty}
use blogengine.Errors.{Error, errors_is_not_found, map_sql_error, err_blog_slug}
use blogengine.Sqlite.Database.{Db, Call, is_live}
use blogengine.Sqlite.Validate.{validate_blog_slug}
use blogengine.Sqlite.Blogs.{get_blog_by_slug}
use blogengine.Sqlite.Posts.Queries.{join_posts, is_named, is_shown, get_post_by_slug_or_public_id}
use blogengine.Handlers.Web.{Request, BlogHandler, Outcome, internal_error, not_found}
use blogengine.Handlers.Pages.{handle_blog, handle_post}
use blogengine.Handlers.Comment.{blog_slug, post_slug}

refusal_is_found :
    (slug : Text) {e : Error} → validate_blog_slug slug ≡ some e → errors_is_not_found e ≡ false
unfolding validate_blog_slug errors_is_not_found
refusal_is_found slug {e} v =
    let same : (err_blog_slug ∷ []) ≡ e = ground (arith, v) in rw (← same) refl

module _ {S : Type 0} (h : BlogHandler S) where
  -- The page of a post that is not there, or may not be shown, answers 500 and not 404: the error of
  -- the query is no storage.ErrNotFound. (Both path values are given, and the driver meets no error.)
  pub handle_post_missing :
      (r : Request) (q c : Call) (db : Db) (s : S)
      → q.fault ≡ none
      → is_empty (blog_slug r) ≡ false
      → is_empty (post_slug r) ≡ false
      → find
          (λ j. is_named (blog_slug r) (post_slug r) j && is_shown q.timestamp j)
          (join_posts db db.posts)
        ≡ none
      → handle_post h r q c db s ≡ internal_error h db s
  unfolding handle_post get_post_by_slug_or_public_id errors_is_not_found
  handle_post_missing r q c db s calm named titled missing =
      ground (arith, calm, named, titled, missing)

  -- what a page answers when its blog is not there, by the check of the slug
  abbrev pub missing_blog : Option Error → Db → S → Outcome S
  missing_blog none db s = not_found h db s
  missing_blog (some _) db s = internal_error h db s

  -- The page of a blog that is not there, or is deleted, answers 404 if the slug of the address is
  -- well formed, and 500 if it is not. (The driver meets no error.)
  pub handle_blog_missing :
      (r : Request) (q c : Call) (db : Db) (s : S)
      → q.fault ≡ none
      → find (λ b. text_eq b.slug (blog_slug r) && is_live b.deleted_at) db.blogs ≡ none
      → handle_blog h r q c db s ≡ missing_blog (validate_blog_slug (blog_slug r)) db s
  unfolding handle_blog get_blog_by_slug errors_is_not_found map_sql_error
  handle_blog_missing r q c db s calm missing =
      elim (Option-cases (validate_blog_slug (blog_slug r))) [
        | inl v ↦ ground (arith, calm, missing, v)
        | inr (e, v) ↦ ground (arith, calm, missing, v, refusal_is_found (blog_slug r) {e = e} v)
      ]
