-- ===== src/Handlers/Pages.antt =====
-- internal/handlers/blog.go and post.go: the home page, the page of a blog, the page of a post, and the
-- four pages that are the same for everybody.
use blogengine.Prelude.{List, [], if◌then◌else◌}
use blogengine.Prelude.Int.{pos}
use blogengine.Prelude.Text.{Text, codes}
use blogengine.Errors.{Result, ok, err, ◌>>=◌, errors_is_not_found}
use blogengine.Storage.{Post, Comment}
use blogengine.Sqlite.Database.{Db, Call}
use blogengine.Sqlite.Blogs.{get_public_blogs, get_blog_by_slug}
use blogengine.Sqlite.Posts.Queries.{
  get_latest_public_posts, get_posts_by_blog_id, get_post_by_slug_or_public_id,
}
use blogengine.Sqlite.Comments.{get_comments_for_post}
use blogengine.Handlers.Web.{
  Request, BlogHandler, Outcome, shows, home, blog, post, about, contact, terms, privacy,
  new_common_data, internal_error, not_found, answers,
}

module _ {S : Type 0} (h : BlogHandler S) where
  -- `q` and `c` are the calls for the blogs and for the posts
  unfoldable pub handle_home : (q c : Call) → Db → S → Outcome S
  unfolding internal_error
  handle_home q c db s = elim (get_public_blogs (pos 0) (pos 5) q db).0 [
    | err e ↦ internal_error h db s
    | ok blogs ↦ elim (get_latest_public_posts (pos 0) (pos 10) c db).0 [
      | err e ↦ internal_error h db s
      | ok posts ↦ answers h (shows 200 (home blogs posts (new_common_data h s))) db s
    ]
  ]

  unfoldable pub handle_blog : Request → (q c : Call) → Db → S → Outcome S
  unfolding internal_error not_found
  handle_blog r q c db s = elim (get_blog_by_slug (r.path_value (codes "blog_slug")) q db).0 [
    | err e ↦ if errors_is_not_found e then not_found h db s else internal_error h db s
    | ok found ↦ elim (get_posts_by_blog_id found.id (pos 0) (pos 10) c db).0 [
      | err e ↦ internal_error h db s
      | ok posts ↦ answers h (shows 200 (blog found posts (new_common_data h s))) db s
    ]
  ]

  -- an error is logged, and the page has no comments
  abbrev pub or_none : Result (List Comment) → List Comment
  or_none (ok comments) = comments
  or_none (err e) = []

  -- the body of a post: its object, read and rendered
  abbrev pub body_of : Post → Result Text
  body_of p = h.read_object p.s3_key >>= h.render

  -- `q` and `c` are the calls for the post and for its comments
  unfoldable pub handle_post : Request → (q c : Call) → Db → S → Outcome S
  unfolding internal_error not_found
  handle_post r q c db s =
      elim (get_post_by_slug_or_public_id (r.path_value (codes "blog_slug"))
        (r.path_value (codes "post_slug")) q db).0 [
          | err e ↦ if errors_is_not_found e then not_found h db s else internal_error h db s
          | ok found ↦ elim (body_of found) [
            | err e ↦ internal_error h db s
            | ok body ↦
                answers h
                  (shows 200 (
                    post (new_common_data h s) found body
                      (or_none (get_comments_for_post found.id (pos 0) (pos 100) c db).0)))
                  db s
          ]
        ]

  unfoldable pub handle_about : Db → S → Outcome S
  handle_about db s = answers h (shows 200 (about (new_common_data h s))) db s

  unfoldable pub handle_contact : Db → S → Outcome S
  handle_contact db s = answers h (shows 200 (contact (new_common_data h s))) db s

  unfoldable pub handle_terms : Db → S → Outcome S
  handle_terms db s = answers h (shows 200 (terms (new_common_data h s))) db s

  unfoldable pub handle_privacy : Db → S → Outcome S
  handle_privacy db s = answers h (shows 200 (privacy (new_common_data h s))) db s
