-- ===== src/Sqlite/Posts/Queries.antt =====
-- storage/sqlite/posts.go: the queries of posts.
use blogengine.Prelude.{
  Bool, false, ◌&&◌, ◌||◌, List, [], ◌∷◌, map, Option, none, some, find, select, if◌then◌else◌,
}
use blogengine.Prelude.Int.{ℤ, ◌==ℤ◌, ltb_ℤ, leb_ℤ}
use blogengine.Prelude.Text.{Text, text_eq, is_empty}
use blogengine.Prelude.TextSort.{leb_text}
use blogengine.Errors.{
  ok, err, err_limit_offset, err_negative_ids, err_blog_slug, err_latest_public_posts,
  err_get_post_public_ids, err_get_posts_by_blog_id, err_get_post_by_slug_or_public_id,
  err_post_identifier,
}
use blogengine.Storage.{Stamp, User, Post, visibility_public}
use blogengine.Sqlite.Table.{done, failed}
use blogengine.Sqlite.Database.{Db, BlogRow, PostRow, is_live, limit_rows, offset_rows, order_last}
use blogengine.Sqlite.Query.{Op, exec, get, answer}
use blogengine.Sqlite.Posts.{plain}

-- JOIN blogs AS b ON b.id = p.blog_id JOIN users AS u ON u.id = p.author_id
pub record Joined : Type 0 where
  pub post : PostRow
  pub blog : BlogRow
  pub author : User

abbrev with_parts : PostRow → Option BlogRow → Option User → List Joined → List Joined
with_parts p (some b) (some u) rest = record { post = p; blog = b; author = u } ∷ rest
with_parts p _ _ rest = rest

unfoldable pub join_posts : Db → List PostRow → List Joined
join_posts db [] = []
join_posts db (p ∷ ps) =
    with_parts p (find (λ b. b.id ==ℤ p.blog_id) db.blogs)
      (find (λ u. u.id ==ℤ p.author_id) db.users) (join_posts db ps)

-- published_at IS NOT NULL AND published_at <= CURRENT_TIMESTAMP: two texts, which are compared byte
-- by byte, so a zone does not count, and within one second the stored text is the greater
abbrev pub is_published : Text → Option Stamp → Bool
is_published timestamp none = false
is_published timestamp (some t) = leb_text t timestamp

-- the condition that the three queries share
abbrev pub is_shown : Text → Joined → Bool
is_shown timestamp j =
    is_live j.post.deleted_at
    && j.post.is_listed
    && is_published timestamp j.post.published_at
    && is_live j.blog.deleted_at

-- p.published_at, in ORDER BY p.published_at DESC; NULL is the least
abbrev pub published_time : Joined → Stamp
published_time j = elim j.post.published_at [ none ↦ [] | some t ↦ t ]

-- the columns of the queries; GetPostBySlugOrPublicID alone reads the S3 key
unfoldable pub read_post : Text → Joined → Post
read_post s3_key j = record {
  id = j.post.id;
  blog_id = j.post.blog_id;
  blog_slug = j.blog.slug;
  author_id = j.post.author_id;
  author_name = j.author.username;
  public_id = j.post.public_id;
  slug = j.post.slug;
  title = j.post.title;
  description = j.post.description;
  s3_key = s3_key;
  is_encrypted = false;
  encryption_iv = none;
  requires_auth = false;
  is_listed = j.post.is_listed;
  allow_comments = false;
  published_at = j.post.published_at;
  created_at = 0;
  updated_at = none;
  deleted_at = none;
}

abbrev pub page : (offset limit : ℤ) → List Joined → List Post
page offset limit found =
    map (read_post []) (limit_rows limit (offset_rows offset (order_last published_time found)))

abbrev pub is_public_post : Text → Joined → Bool
is_public_post timestamp j = is_shown timestamp j && text_eq j.blog.visibility visibility_public

unfoldable pub get_latest_public_posts : (offset limit : ℤ) → Op (List Post)
unfolding join_posts read_post
get_latest_public_posts offset limit c db =
    if ltb_ℤ offset 0 || leb_ℤ limit 0
    then (err (plain err_latest_public_posts err_limit_offset), db)
    else (
      answer
          (exec c (
            done
              (page offset limit (select (is_public_post c.timestamp) (join_posts db db.posts)))))
          (plain err_latest_public_posts),
      db,
    )

unfoldable pub get_all_post_public_ids : Op (List Text)
get_all_post_public_ids c db = (
  answer (exec c (done (map (λ p. p.public_id) (select (λ p. is_live p.deleted_at) db.posts))))
      (plain err_get_post_public_ids),
  db,
)

abbrev pub in_blog : ℤ → Text → Joined → Bool
in_blog blog_id timestamp j = j.blog.id ==ℤ blog_id && is_shown timestamp j

unfoldable pub get_posts_by_blog_id : (blog_id offset limit : ℤ) → Op (List Post)
unfolding join_posts read_post
get_posts_by_blog_id blog_id offset limit c db =
    if ltb_ℤ blog_id 1
    then (err (err_negative_ids ∷ []), db)
    else if ltb_ℤ offset 0 || leb_ℤ limit 0
    then (err (err_limit_offset ∷ []), db)
    else (
      answer
          (exec c (
            done
              (page offset limit (select (in_blog blog_id c.timestamp) (join_posts db db.posts)))))
          (plain err_get_posts_by_blog_id),
      db,
    )

-- p.slug = ?: a NULL equals nothing
abbrev has_slug : Text → Option Text → Bool
has_slug s none = false
has_slug s (some t) = text_eq t s

abbrev pub is_named : (blog_slug identifier : Text) → Joined → Bool
is_named blog_slug identifier j =
    text_eq j.blog.slug blog_slug
    && (has_slug identifier j.post.slug || text_eq j.post.public_id identifier)

unfoldable pub get_post_by_slug_or_public_id : (blog_slug identifier : Text) → Op Post
unfolding join_posts read_post
get_post_by_slug_or_public_id blog_slug identifier c db =
    if is_empty blog_slug
    then (err (err_blog_slug ∷ []), db)
    else if is_empty identifier
    then (err (err_post_identifier ∷ []), db)
    else (
      elim (get c (
          find (λ j. is_named blog_slug identifier j && is_shown c.timestamp j)
            (join_posts db db.posts))) [
              | failed e ↦ err (plain err_get_post_by_slug_or_public_id e)
              | done j ↦ ok (read_post j.post.s3_key j)
            ],
      db,
    )
