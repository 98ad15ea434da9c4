-- ===== src/Handlers/Laws/Publication.antt =====
-- handlers/post.go: the page of a post that was published.
use blogengine.Prelude.{◌≡◌, true, false, List, none, some, find, arith}
use blogengine.Prelude.Int.{pos, ◌==ℤ◌}
use blogengine.Prelude.Text.{Text, is_empty}
use blogengine.Errors.{Result, ok}
use blogengine.Storage.{User, Post, Comment, CreatePostParams}
use blogengine.Sqlite.Invariant.WellFormed.{IsWellFormed}
use blogengine.Sqlite.Database.{Db, Call, BlogRow}
use blogengine.Sqlite.Posts.{create_post}
use blogengine.Sqlite.Posts.Queries.{is_published, get_post_by_slug_or_public_id}
use blogengine.Sqlite.Laws.Publication.{as_read, get-create_post}
use blogengine.Handlers.Web.{Request, BlogHandler, shows, post, new_common_data, answers}
use blogengine.Handlers.Pages.{or_none, body_of, handle_post}
use blogengine.Sqlite.Comments.{get_comments_for_post}
use blogengine.Handlers.Comment.{blog_slug, post_slug}

module _ {S : Type 0} (h : BlogHandler S) where
  page_of_post :
      (r : Request) (q c : Call) (db : Db) (s : S) {p : Post} {body : Text}
      → get_post_by_slug_or_public_id (blog_slug r) (post_slug r) q db ≡ (ok p, db)
      → body_of h p ≡ ok body
      → (comments : List Comment) × (handle_post h r q c db s
          ≡ answers h (shows 200 (post (new_common_data h s) p body comments)) db s)
  unfolding handle_post
  page_of_post r q c db s {p} {body} found read =
      (or_none h (get_comments_for_post p.id (pos 0) (pos 100) c db).0, ground (arith, found, read))

  -- The page of a post that CreatePost returned shows it to every visitor, with its text as it is
  -- rendered from the object store, under the slug of its blog and its public id: if the post is listed,
  -- the stored text of its time of publication is not after the text of CURRENT_TIMESTAMP at the query,
  -- and its object is read and rendered without an error. (The database is well
  -- formed, the driver meets no error, and the slug of the blog is not empty.)
  pub published_page :
      (p : CreatePostParams) (generated : Result Text) (q c look comments_call : Call) (db : Db)
      (r : Request) (s : S) {b : BlogRow} {made : Post} {db' : Db} {body : Text}
      → IsWellFormed db
      → look.fault ≡ none
      → find (λ x. x.id ==ℤ p.blog_id) db.blogs ≡ some b
      → is_empty b.slug ≡ false
      → create_post p generated q c db ≡ (ok made, db')
      → p.is_listed ≡ true
      → is_published look.timestamp p.published_at ≡ true
      → body_of h made ≡ ok body
      → blog_slug r ≡ b.slug
      → post_slug r ≡ made.public_id
      → (u : User) × (comments : List Comment) × (handle_post h r look comments_call db' s
          ≡ answers h
              (shows 200 (post (new_common_data h s) (as_read made b u) body comments))
              db'
              s)
  published_page p generated q c look comments_call db r s {b} {made} {db'} {body} w calm blog named
        h' listed due read at_blog at_post =
      let (u, author, key, found) =
        get-create_post p generated q c look db w calm blog named h' listed due in
      let (comments, shown) =
        page_of_post r look comments_call db' s (rw (at_blog, at_post) found) read in
      (u, comments, shown)
